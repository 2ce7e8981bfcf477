-- ===== src/ClientLib/Semaphores/Progress.antt =====
-- Threads that wait for a semaphore go on once it is given often enough.
use diald_top.Base.{
  ℕ, zero, suc, ◌+◌, ◌-◌, ◌≤◌, ◌≡◌, refl, ap, ◌∙◌, arith, none, some, List, [], ◌∷◌, ◌++◌, inl, inr,
}
use diald_top.ClientLib.Semaphores.{Semaphore, semaphore_give, signal, wake, decrement}
use diald_top.ClientLib.Semaphores.Counts.{zero_or_suc}

-- A give, or a turn of a woken thread; without one the turn does nothing.
pub data Turn : Type 0 where
  gives : Turn
  goes_on : Turn

abbrev pub turn : Turn → Semaphore → Semaphore
turn gives s = semaphore_give s
turn goes_on s = elim (wake s) [ none ↦ s | some t ↦ t ]

abbrev pub turns : List Turn → Semaphore → Semaphore
turns [] s = s
turns (x ∷ xs) s = turns xs (turn x s)

abbrev pub count_gives : List Turn → ℕ
count_gives [] = 0
count_gives (gives ∷ xs) = suc (count_gives xs)
count_gives (goes_on ∷ xs) = count_gives xs

-- A turn for each of so many threads.
abbrev pub all_go_on : ℕ → List Turn
all_go_on zero = []
all_go_on (suc n) = goes_on ∷ all_go_on n

-- The takes that are begun: done, woken or waiting.
abbrev pub begun : Semaphore → ℕ
begun s = s.taken + s.woken + s.waiting

turn-begun : (x : Turn) (s : Semaphore) → begun (turn x s) ≡ begun s
unfolding semaphore_give signal wake decrement
turn-begun gives s = elim (zero_or_suc s.waiting) [
  | inl z ↦ rw z (omega arith)
  | inr (k, z) ↦ rw z (omega arith)
]
turn-begun goes_on s = elim (zero_or_suc s.woken) [
  | inl z ↦ rw z (omega arith)
  | inr (k, z) ↦ rw z (omega arith)
]

turns-begun : (xs : List Turn) (s : Semaphore) → begun (turns xs s) ≡ begun s
turns-begun [] s = refl
turns-begun (x ∷ xs) s = turns-begun xs (turn x s) ∙ turn-begun x s

-- A give lets one thread less wait.
give-waiting : (s : Semaphore) → (semaphore_give s).waiting ≡ s.waiting - 1
unfolding semaphore_give signal
give-waiting s = elim (zero_or_suc s.waiting) [
  | inl z ↦ rw z (omega arith)
  | inr (k, z) ↦ rw z (omega arith)
]

go_on-waiting : (s : Semaphore) → (turn goes_on s).waiting ≡ s.waiting
unfolding wake decrement
go_on-waiting s = elim (zero_or_suc s.woken) [ inl z ↦ rw z refl | inr (k, z) ↦ rw z refl ]

turns-waiting : (xs : List Turn) (s : Semaphore) → (turns xs s).waiting ≡ s.waiting - count_gives xs
turns-waiting [] s = omega arith
turns-waiting (gives ∷ xs) s = omega (arith, turns-waiting xs (semaphore_give s), give-waiting s)
turns-waiting (goes_on ∷ xs) s = omega (arith, turns-waiting xs (turn goes_on s), go_on-waiting s)

turns_append : (xs ys : List Turn) (s : Semaphore) → turns (xs ++ ys) s ≡ turns ys (turns xs s)
turns_append [] ys s = refl
turns_append (x ∷ xs) ys s = turns_append xs ys (turn x s)

go_on-woken : (s : Semaphore) → (turn goes_on s).woken ≡ s.woken - 1
unfolding wake decrement
go_on-woken s = elim (zero_or_suc s.woken) [
  | inl z ↦ rw z (omega arith)
  | inr (k, z) ↦ rw z (omega arith)
]

all_go_on-woken : (n : ℕ) (s : Semaphore) → s.woken ≤ n → (turns (all_go_on n) s).woken ≡ 0
all_go_on-woken zero s le = omega arith
all_go_on-woken (suc n) s le = all_go_on-woken n (turn goes_on s) (omega (arith, go_on-woken s))

-- However gives and woken threads take turns: when there were as many gives as threads waited, and
-- then each woken thread gets its turn, every take that was begun is done.
pub turns-done :
    (xs : List Turn) (s : Semaphore)
    → s.waiting ≤ count_gives xs
    → let t = turns (xs ++ all_go_on (turns xs s).woken) s in
      (t.waiting ≡ 0) × (t.woken ≡ 0) × (t.taken ≡ s.taken + s.woken + s.waiting)
turns-done xs s enough =
    let u = turns xs s in
    let t = turns (all_go_on u.woken) u in
    let done = all_go_on-woken u.woken u (omega arith) in
    let left : u.waiting ≡ 0 = omega (arith, turns-waiting xs s) in
    let later : t.waiting ≡ 0 = omega (arith, turns-waiting (all_go_on u.woken) u, left) in
    let kept = turns-begun (all_go_on u.woken) u ∙ turns-begun xs s in
    let same = turns_append xs (all_go_on u.woken) s in
    (
      ap (λ v. v.waiting) same ∙ later,
      ap (λ v. v.woken) same ∙ done,
      ap (λ v. v.taken) same ∙ omega (arith, kept, done, later),
    )
