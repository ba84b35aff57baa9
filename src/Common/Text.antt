-- ===== src/Common/Text.antt =====
-- Texts of the source as lists of their bytes.
use Prim.Native.Char.{code}
use Prim.Native.String.{String}
use Prim.Native.Nat.{ℕ}
use mathlib.Core.List.{List, [], ◌∷◌, ◌++◌}

-- The bytes of a text of ASCII characters.
abbrev pub codes : String → List ℕ
codes String.[] = []
codes (String.◌∷◌ c s) = code c ∷ codes s

-- "\r\n"
abbrev pub crlf : List ℕ
crlf = 13 ∷ 10 ∷ []

-- A text that ends its line.
abbrev pub line : String → List ℕ
line s = codes s ++ crlf
