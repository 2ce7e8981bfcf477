-- ===== src/Base/Loops.antt =====
-- Counted loops, and the rule by which an invariant is carried through one.
use Prim.Native.Nat.{ℕ, zero, suc, ◌+◌, ◌≤◌}
use mathlib.Core.Path.{◌≡◌}
use mathlib.Core.Logic.{◌⊎◌, inl, inr}
use mathlib.Core.Bool.{Bool, true, false}
use native.Mathlib.Omega.{arith}
use diald_top.Base.Tests.{if◌then◌else◌, Bool-cases}

-- `for (; rounds left && test; i++) body`
unfoldable pub for_while {ℓ} : {S : Type ℓ} → ℕ → ℕ → (S → Bool) → (ℕ → S → S) → S → S
for_while zero i test body s = s
for_while (suc n) i test body s =
    let rest = for_while n (suc i) test body (body i s) in if test s then rest else s

-- The invariant holds at some round, which is the last unless the test failed.
pub for_while_inv {ℓ κ} :
    {S : Type ℓ} (P : ℕ → S → Type κ) (test : S → Bool) (body : ℕ → S → S)
    → ((i : ℕ) (s : S) → test s ≡ true → P i s → P (suc i) (body i s))
    → (n i : ℕ) (s : S) → P i s
    → let t = for_while n i test body s in
      (j : ℕ) × (j ≤ i + n) × P j t × ((j ≡ i + n) ⊎ (test t ≡ false))
unfolding for_while
for_while_inv P test body keep zero i s h = (i, omega arith, h, inl (omega arith))
for_while_inv P test body keep (suc n) i s h = elim (Bool-cases (test s)) [
  | inr stop ↦ (i, omega arith, rw stop h, inr (rw stop stop))
  | inl go ↦
      let (j, le, p, e) = for_while_inv P test body keep n (suc i) (body i s) (keep i s go h) in
      (j, omega arith, rw go p, rw go (at_end j e))
]
  where
    at_end : (j : ℕ) {B : Type 0} → (j ≡ suc i + n) ⊎ B → (j ≡ i + suc n) ⊎ B
    at_end j (inl e) = inl (omega arith)
    at_end j (inr e) = inr e
