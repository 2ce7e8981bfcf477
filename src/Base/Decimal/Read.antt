-- ===== src/Base/Decimal/Read.antt =====
-- Reading back what `%d` prints, by whatever reads one digit after the other.
use diald_top.Base.Lists.{length}
use diald_top.Base.Tests.{ltb, Bool-cases}
use diald_top.Base.Decimal.{decimal_from, decimal}
use Prim.Native.Nat.{ℕ, zero, suc, ◌+◌, ◌*◌, ◌/◌, ◌%◌, ◌<◌, ◌≤◌}
use mathlib.Core.Path.{◌≡◌, refl, ap, ◌∙◌}
use mathlib.Core.Bool.{true}
use mathlib.Core.Logic.{inl, inr}
use mathlib.Core.List.{List, [], ◌∷◌, ◌++◌}
use native.Mathlib.Omega.{arith}

-- `read v text` has seen the digits of `v` before the text.
abbrev pub ReadsDigits {ℓ} : {A : Type ℓ} → (ℕ → List ℕ → A) → Type ℓ
ReadsDigits read = (v d : ℕ) (cs : List ℕ) → d < 10 → read v ((d + 48) ∷ cs) ≡ read (v * 10 + d) cs

read-decimal_from {ℓ} :
    {A : Type ℓ} (read : ℕ → List ℕ → A)
    → ReadsDigits read
    → (fuel n : ℕ) (acc : List ℕ) → n < fuel
    → read 0 (decimal_from fuel n acc) ≡ read n acc
unfolding decimal_from
read-decimal_from read digit zero n acc lt = absurd (omega arith)
read-decimal_from read digit (suc fuel) n acc lt = elim (Bool-cases (ltb n 10)) [
  | inl last ↦ rw last (digit 0 n acc ground arith ∙ ap (λ x. read x acc) (omega arith))
  | inr more ↦ rw more (
      read-decimal_from read digit fuel (n / 10) ((n % 10 + 48) ∷ acc) ground arith
      ∙ (digit (n / 10) (n % 10) acc (omega arith) ∙ ap (λ x. read x acc) (omega arith)))
]

decimal_from-append :
    (fuel n : ℕ) (acc rest : List ℕ)
    → decimal_from fuel n acc ++ rest ≡ decimal_from fuel n (acc ++ rest)
unfolding decimal_from
decimal_from-append zero n acc rest = refl
decimal_from-append (suc fuel) n acc rest = elim (Bool-cases (ltb n 10)) [
  | inl last ↦ rw last refl
  | inr more ↦ rw more (decimal_from-append fuel (n / 10) ((n % 10 + 48) ∷ acc) rest)
]

-- A number is read back from its digits, and then the text behind them.
pub read-decimal {ℓ} :
    {A : Type ℓ} (read : ℕ → List ℕ → A)
    → ReadsDigits read
    → (n : ℕ) (rest : List ℕ) → read 0 (decimal n ++ rest) ≡ read n rest
unfolding decimal
read-decimal read digit n rest =
    ap (read 0) (decimal_from-append (suc n) n [] rest)
    ∙ read-decimal_from read digit (suc n) n rest (omega arith)

-- 10, 100 and so on.
abbrev pub tens : ℕ → ℕ
tens zero = 10
tens (suc k) = 10 * tens k

length-decimal_from :
    (fuel n k : ℕ) (acc : List ℕ)
    → n < tens k
    → length (decimal_from fuel n acc) ≤ suc k + length acc
unfolding decimal_from
length-decimal_from zero n k acc lt = omega arith
length-decimal_from (suc fuel) n zero acc lt =
    let last : ltb n 10 ≡ true = ground arith in rw last (omega arith)
length-decimal_from (suc fuel) n (suc k) acc lt = elim (Bool-cases (ltb n 10)) [
  | inl last ↦ rw last (omega arith)
  | inr more ↦
      let rest = length-decimal_from fuel (n / 10) k ((n % 10 + 48) ∷ acc) (grind (arith, lt)) in
      rw more (omega (arith, rest))
]

pub length-decimal : (n k : ℕ) → n < tens k → length (decimal n) ≤ suc k
unfolding decimal
length-decimal n k lt = omega (arith, length-decimal_from (suc n) n k [] lt)
