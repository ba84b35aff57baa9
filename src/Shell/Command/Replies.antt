-- ===== src/Shell/Command/Replies.antt =====
-- That the commands which only send return.
use mycpu_4soc_game_port.Common.{
  ℕ, ◌*◌, ◌/◌, ◌%◌, ◌^◌, ◌<◌, ◌≡◌, refl, arith, Bool-cases, inl, inr, ltb, if◌then◌else◌, Option,
  some, [], u32, ◌>>=◌,
}
use mycpu_4soc_game_port.Shell.Numbers.{print_uint, udiv, umod}
use mycpu_4soc_game_port.Shell.Numbers.Decimal.{print_uint-Prints}
use mycpu_4soc_game_port.Shell.Numbers.Division.{udiv-umod_lem}
use mycpu_4soc_game_port.Shell.Command.{Csrs, cmd_info, cmd_csr, cpi_line, cmd_perf}
use native.Mathlib.Nat.{div-le_self}

-- The CSRs that are printed in decimal are 32 bits wide.
pub record AreU32 (csr : Csrs) : Type 0 where
  pub mhartid : csr.mhartid < 2 ^ 32
  pub mcycle : csr.mcycle < 2 ^ 32
  pub minstret : csr.minstret < 2 ^ 32

-- It is a result.
abbrev pub Replies {ℓ} : {A : Type ℓ} → Option A → Type ℓ
Replies {A = A} r = (a : A) × (r ≡ some a)

then-Replies {ℓ κ} :
    {A : Type ℓ} {B : Type κ} (r : Option A) (k : A → Option B)
    → Replies r
    → ((a : A) → Replies (k a))
    → Replies (r >>= k)
then-Replies r k (a, e) next = rw e (next a)

print_uint-Replies : (val : ℕ) → val < 2 ^ 32 → Replies (print_uint val)
print_uint-Replies val h = let p = print_uint-Prints val h in (p.out, p.returns)

pub cmd_info-Replies : (csr : Csrs) → AreU32 csr → Replies (cmd_info csr)
unfolding cmd_info
cmd_info-Replies csr h =
    then-Replies (print_uint csr.mhartid) _ (print_uint-Replies csr.mhartid h.mhartid)
      (λ hart. (_, refl))

pub cmd_csr-Replies : (csr : Csrs) → AreU32 csr → Replies (cmd_csr csr)
unfolding cmd_csr
cmd_csr-Replies csr h =
    then-Replies (print_uint csr.mhartid) _ (print_uint-Replies csr.mhartid h.mhartid)
      (λ hart. (_, refl))

-- The divisions behind the counters, and the bounds of what is printed.
pub udiv_pos : (num den : ℕ) → num < 2 ^ 32 → 0 < den → udiv num den ≡ some (num / den)
udiv_pos num den h pos = ground (arith, udiv-umod_lem num den)

pub umod_pos : (num den : ℕ) → num < 2 ^ 32 → 0 < den → umod num den ≡ some (num % den)
umod_pos num den h pos = ground (arith, udiv-umod_lem num den)

pub cpi_line-Replies :
    (cycles instret : ℕ) → cycles < 2 ^ 32 → 0 < instret → Replies (cpi_line cycles instret)
unfolding cpi_line
cpi_line-Replies cycles instret h pos =
    let total = u32 (cycles * 100) in
    let bound : total / instret < 2 ^ 32 = omega (arith, div-le_self total instret) in
    rw
      (
        udiv_pos cycles instret h pos,
        udiv_pos total instret (omega arith) pos,
        umod_pos (total / instret) 100 bound (omega arith),
      )
      (then-Replies (print_uint (cycles / instret)) _
        (print_uint-Replies (cycles / instret) (omega (arith, div-le_self cycles instret)))
        (λ whole.
          then-Replies (print_uint (total / instret % 100)) _
            (print_uint-Replies (total / instret % 100) (omega arith)) (λ part. (_, refl))))

pub cmd_perf-Replies : (csr : Csrs) → AreU32 csr → Replies (cmd_perf csr)
unfolding cmd_perf
cmd_perf-Replies csr h =
    then-Replies (print_uint csr.mcycle) _ (print_uint-Replies csr.mcycle h.mcycle) (λ cycles.
      then-Replies (print_uint csr.minstret) _ (print_uint-Replies csr.minstret h.minstret)
        (λ instret.
          then-Replies (if ltb 0 csr.minstret then cpi_line csr.mcycle csr.minstret else some []) _
            ratio (λ cpi. (_, refl))))
  where
    ratio : Replies (if ltb 0 csr.minstret then cpi_line csr.mcycle csr.minstret else some [])
    ratio = elim (Bool-cases (ltb 0 csr.minstret)) [
      | inl pos ↦ rw pos (cpi_line-Replies csr.mcycle csr.minstret h.mcycle (ground arith))
      | inr zero ↦ rw zero ([], refl)
    ]
