-- ===== src/Server/Select/Maxfd.antt =====
-- adjust_maxfd of server/selection.c: the largest member of a set.
use diald_top.Base.{
  ℕ, suc, ◌<◌, ◌≡◌, refl, inl, inr, true, arith, Bool-cases, ℤ, pos, negsuc, minus_one, eqb_ℤ,
  max_ℤ, rounds, for_while, for_while_inv,
}
use diald_top.Server.Fds.{FdSet, fd_zero, fd_set, fd_clr, ThreadFds}
use diald_top.Server.Select.{adjust_maxfd, note_max}

-- `max` is the largest member of `set`, and -1 if there is none.
pub record IsTop (set : FdSet) (max : ℤ) : Type 0 where
  pub bounded : (i : ℕ) → set i ≡ true → i < rounds max
  pub attained : (i : ℕ) → max ≡ pos i → set i ≡ true
  pub floor : (i : ℕ) → max ≡ negsuc i → i ≡ 0

-- So far as the members below `n` go.
record IsTopBelow (n : ℕ) (set : FdSet) (max : ℤ) : Type 0 where
  bounded : (i : ℕ) → i < n → set i ≡ true → i < rounds max
  attained : (i : ℕ) → max ≡ pos i → (set i ≡ true) × (i < n)
  floor : (i : ℕ) → max ≡ negsuc i → i ≡ 0

note_max-IsTopBelow :
    (set : FdSet) (n : ℕ) (max : ℤ)
    → IsTopBelow n set max
    → IsTopBelow (suc n) set (note_max set n max)
note_max-IsTopBelow set n (pos k) h = record {
  bounded = λ i. ground (arith, h.bounded i, h.attained k refl);
  attained = λ i. ground (arith, h.attained i);
  floor = λ i. ground arith;
}
note_max-IsTopBelow set n (negsuc k) h = record {
  bounded = λ i. ground (arith, h.bounded i);
  attained = λ i. ground (arith, h.attained i);
  floor = λ i. ground (arith, h.floor i);
}

loop-IsTopBelow :
    (set : FdSet) (n : ℕ) → IsTopBelow n set (for_while n 0 (λ _. true) (note_max set) minus_one)
loop-IsTopBelow set n =
    let (j, le, p, e) =
      for_while_inv (λ i m. IsTopBelow i set m) (λ _. true) (note_max set)
        (λ i m _ h. note_max-IsTopBelow set i m h) n 0 minus_one
        (record {
          bounded = λ i h. absurd (omega arith);
          attained = λ i e. cc;
          floor = λ i e. ground arith;
        }) in
    let at_end : j ≡ n = elim e [ inl q ↦ omega arith | inr q ↦ cc ] in rw at_end at p

-- Nothing but `fd` leaves the set.
clr-old : (fd i : ℕ) (set old : FdSet) → set i ≡ fd_clr fd old i → set i ≡ true → old i ≡ true
clr-old fd i set old e h = ground arith

-- After `fd` has left the set that `maxfd` was the largest member of, adjust_maxfd finds the
-- largest member of what is left.
pub adjust_maxfd-IsTop :
    (t : ThreadFds) (old : FdSet) (fd : ℕ)
    → IsTop old t.maxfd
    → ((i : ℕ) → t.full i ≡ fd_clr fd old i)
    → IsTop t.full (adjust_maxfd t (pos fd))
unfolding adjust_maxfd
adjust_maxfd-IsTop t old fd top e = elim (Bool-cases (eqb_ℤ t.maxfd (pos fd))) [
  | inl same ↦
      let found = loop-IsTopBelow t.full (rounds t.maxfd) in
      rw same (record {
        bounded = λ i h. found.bounded i (top.bounded i (clr-old fd i t.full old (e i) h)) h;
        attained = λ i q. (found.attained i q).0;
        floor = found.floor;
      })
  | inr other ↦ rw other (record {
    bounded = λ i h. top.bounded i (clr-old fd i t.full old (e i) h);
    attained = λ i q. ground (arith, e i, top.attained i);
    floor = top.floor;
  })
]

-- A member more.
pub set-IsTop :
    (fd : ℕ) (set : FdSet) (max : ℤ) → IsTop set max → IsTop (fd_set fd set) (max_ℤ (pos fd) max)
set-IsTop fd set (pos k) h = record {
  bounded = λ i. ground (arith, h.bounded i);
  attained = λ i. ground (arith, h.attained i);
  floor = λ i. ground arith;
}
set-IsTop fd set (negsuc k) h = record {
  bounded = λ i. ground (arith, h.bounded i);
  attained = λ i. ground (arith, h.attained i);
  floor = λ i. ground arith;
}

pub no-IsTop : IsTop fd_zero minus_one
no-IsTop = record { bounded = λ i e. cc; attained = λ i e. cc; floor = λ i e. ground arith }
