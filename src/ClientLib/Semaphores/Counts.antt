-- ===== src/ClientLib/Semaphores/Counts.antt =====
-- What the value of a semaphore says.
use diald_top.Base.{
  ℕ, zero, suc, ◌+◌, ◌≡◌, refl, ap, ◌∙◌, subst, false, ◌⊎◌, inl, inr, arith, Bool-cases, some, ℤ,
  pos, negsuc, minus_one, inc, dec, eqb_ℤ,
}
use diald_top.ClientLib.Semaphores.{
  Semaphore, semaphore_create, decrement, semaphore_take, wake, signal, semaphore_give, Step, Reach,
  takes, wakes, gives, rouses, creates, later,
}

-- `a - b`
abbrev pub minus : ℕ → ℕ → ℤ
minus a zero = pos a
minus zero (suc b) = negsuc b
minus (suc a) (suc b) = minus a b

dec-minus : (a b : ℕ) → dec (minus a b) ≡ minus a (suc b)
dec-minus zero zero = refl
dec-minus (suc a) zero = refl
dec-minus zero (suc b) = refl
dec-minus (suc a) (suc b) = dec-minus a b

inc-minus : (a b : ℕ) → inc (minus a b) ≡ minus (suc a) b
inc-minus a zero = refl
inc-minus zero (suc zero) = refl
inc-minus zero (suc (suc b)) = refl
inc-minus (suc a) (suc b) = inc-minus a b

-- The value is the first one with the gives added and the takes taken away.
pub Counts : ℕ → Semaphore → Type 0
Counts n s = s.value ≡ minus (s.given + n) s.taken

decrement-Counts : (n : ℕ) (s : Semaphore) → Counts n s → Counts n (decrement s)
unfolding Counts decrement
decrement-Counts n s c = ap dec c ∙ dec-minus (s.given + n) s.taken

take-Counts : (n : ℕ) (s : Semaphore) → Counts n s → Counts n (semaphore_take s)
unfolding Counts semaphore_take
take-Counts n s c = elim (Bool-cases (eqb_ℤ s.value (pos 0))) [
  | inl e ↦ rw e c
  | inr e ↦ rw e (decrement-Counts n s c)
]

pub zero_or_suc : (m : ℕ) → (m ≡ 0) ⊎ ((k : ℕ) × (m ≡ suc k))
zero_or_suc zero = inl refl
zero_or_suc (suc k) = inr (k, refl)

wake-Counts : (n : ℕ) (s t : Semaphore) → wake s ≡ some t → Counts n s → Counts n t
unfolding wake Counts
wake-Counts n s t e c = elim (zero_or_suc s.woken) [
  | inl z ↦ ground arith
  | inr (m, z) ↦
      let woken : decrement (record s { woken = m }) ≡ t = ground arith in
      subst (Counts n) woken (decrement-Counts n (record s { woken = m }) c)
]

signal-Counts : (n : ℕ) (s : Semaphore) → Counts n s → Counts n (signal s)
unfolding Counts signal
signal-Counts n s c = elim (zero_or_suc s.waiting) [ inl z ↦ rw z c | inr (m, z) ↦ rw z c ]

give-Counts : (n : ℕ) (s : Semaphore) → Counts n s → Counts n (semaphore_give s)
unfolding Counts semaphore_give
give-Counts n s c =
    signal-Counts n (record s { value = inc s.value; given = suc s.given })
      (ap inc c ∙ (inc-minus (s.given + n) s.taken ∙ ap (λ k. minus k s.taken) (omega arith)))

Step-Counts : (n : ℕ) {s t : Semaphore} → Step s t → Counts n s → Counts n t
Step-Counts n takes c = take-Counts n _ c
Step-Counts n (wakes e) c = wake-Counts n _ _ e c
Step-Counts n gives c = give-Counts n _ c
Step-Counts n rouses c = signal-Counts n _ c

-- In every state that the threads can reach, the value is the first one with the gives added and the
-- takes that are done taken away: no count is lost, waits and wake-ups included.
pub Reach-Counts : (n : ℕ) {s : Semaphore} → Reach (pos n) s → Counts n s
unfolding Counts semaphore_create
Reach-Counts n creates = ap pos (omega arith)
Reach-Counts n (later r st) = Step-Counts n st (Reach-Counts n r)

create_value : (n : ℕ) → (semaphore_create (pos n)).value ≡ pos n
unfolding semaphore_create
create_value n = refl

-- Takes, one after the other, down to zero.
drains :
    (n k : ℕ) (s : Semaphore)
    → Reach (pos n) s
    → s.value ≡ pos k
    → (t : Semaphore) × Reach (pos n) t × (t.value ≡ pos 0)
unfolding semaphore_take decrement
drains n zero s r v = (s, r, v)
drains n (suc k) s r v =
    let busy : eqb_ℤ s.value (pos 0) ≡ false = ground arith in
    drains n k _ (later r takes) (rw busy (ap dec v))

overtaken :
    (s : Semaphore)
    → s.value ≡ pos 0
    → (t : Semaphore) × (wake (semaphore_take (semaphore_give (semaphore_take s))) ≡ some t)
      × (t.value ≡ minus_one)
unfolding semaphore_take semaphore_give wake signal decrement
overtaken s v = rw v (_, refl, refl)

-- Whatever value it is created with, the value of a semaphore can go below zero: a take waits at
-- zero, a give wakes it, another take is faster, and the one that was woken does not look again.
pub Reach-overdrawn : (n : ℕ) → (s : Semaphore) × Reach (pos n) s × (s.value ≡ minus_one)
Reach-overdrawn n =
    let (s, r, empty) = drains n n _ creates (create_value n) in
    let (t, woken, below) = overtaken s empty in
    (t, later (later (later (later r takes) gives) takes) (wakes woken), below)
