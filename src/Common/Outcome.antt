-- ===== src/Common/Outcome.antt =====
-- Programs that return: a result that is there and has a property, through `◌>>=◌`.
use mathlib.Core.Path.{◌≡◌, refl}
use mathlib.Core.Option.{Option, some}
use mycpu_4soc_game_port.Common.Tests.{◌>>=◌}

-- `r` is a result with the property `P`.
pub record Returns {A : Type 0} (P : A → Type 0) (r : Option A) : Type 0 where
  pub out : A
  pub returns : r ≡ some out
  pub holds : P out

pub gives : {A : Type 0} {P : A → Type 0} (x : A) → P x → Returns P (some x)
gives x p = record { out = x; returns = refl; holds = p }

pub then_gives :
    {A B : Type 0} {P : A → Type 0} {Q : B → Type 0} (r : Option A) (k : A → Option B)
    → Returns P r
    → ((x : A) → P x → Returns Q (k x))
    → Returns Q (r >>= k)
then_gives r k h next =
    let rest = next h.out h.holds in
    record { out = rest.out; returns = rw h.returns rest.returns; holds = rest.holds }
