-- ===== src/Server/Select/Mux.antt =====
-- mux_fds of server/selection.c: the union of the three sets.
use diald_top.Base.{
  ℕ, zero, suc, ◌+◌, ◌<◌, ◌≤◌, ◌≡◌, refl, ◌∙◌, ap, inl, inr, true, ◌||◌, arith, if◌then◌else◌, pos,
  minus_one, max_ℤ, rounds, for_while, for_while_inv,
}
use native.Mathlib.Decide.{dec_lt}
use diald_top.Server.Fds.{FdSet, fd_zero, ThreadFds, Fds}
use diald_top.Server.Select.{mux_fds, mux_fd, mux_one}
use diald_top.Server.Select.Maxfd.{IsTop, no-IsTop}

-- The number of members below `n`.
unfoldable pub card : ℕ → FdSet → ℕ
card zero set = 0
card (suc n) set = (if set n then 1 else 0) + card n set

-- `m` is `old` with the members of `set` below `n` added.
record Added (n : ℕ) (set : FdSet) (old m : ThreadFds) : Type 0 where
  below : (i : ℕ) → i < n → m.full i ≡ (old.full i || set i)
  above : (i : ℕ) → n ≤ i → m.full i ≡ old.full i
  counted : (k : ℕ) → old.fullcount ≡ pos k → m.fullcount ≡ pos (card n set + k)
  kept : m.maxfd ≡ old.maxfd

mux_fd-Added :
    (set : FdSet) (old : ThreadFds) (n : ℕ) (m : ThreadFds)
    → Added n set old m
    → Added (suc n) set old (mux_fd set n m)
unfolding card
mux_fd-Added set old n m h = record {
  below = λ i. ground (arith, h.below i, h.above i);
  above = λ i. ground (arith, h.above i);
  counted = λ k. ground (arith, h.counted k);
  kept = ground (arith, h.kept);
}

start-Added : (set : FdSet) (old : ThreadFds) → Added 0 set old old
unfolding card
start-Added set old = record {
  below = λ i h. absurd (omega arith);
  above = λ i h. refl;
  counted = λ k h. ground arith;
  kept = refl;
}

loop-Added :
    (set : FdSet) (n : ℕ) (old : ThreadFds)
    → Added n set old (for_while n 0 (λ _. true) (mux_fd set) old)
loop-Added set n old =
    let (j, le, p, e) =
      for_while_inv (λ i m. Added i set old m) (λ _. true) (mux_fd set)
        (λ i m _ h. mux_fd-Added set old i m h) n 0 old (start-Added set old) in
    let at_end : j ≡ n = elim e [ inl q ↦ omega arith | inr q ↦ cc ] in rw at_end at p

-- A set whose members all lie below the rounds of its loop is added whole.
record Merged (t old m : ThreadFds) : Type 0 where
  full : (i : ℕ) → m.full i ≡ (old.full i || t.full i)
  counted : (k : ℕ) → old.fullcount ≡ pos k → m.fullcount ≡ pos (card (rounds t.maxfd) t.full + k)
  maxfd : m.maxfd ≡ max_ℤ t.maxfd old.maxfd

mux_one-Merged : (t old : ThreadFds) → IsTop t.full t.maxfd → Merged t old (mux_one t old)
unfolding mux_one
mux_one-Merged t old top =
    let p = loop-Added t.full (rounds t.maxfd) old in
    record {
      full = λ i. elim (dec_lt i (rounds t.maxfd)) [
        | yes h ↦ p.below i h
        | no h ↦ ground (arith, p.above i, top.bounded i)
      ];
      counted = p.counted;
      maxfd = ap (max_ℤ t.maxfd) p.kept;
    }

Merged-IsTop :
    {t old m : ThreadFds}
    → Merged t old m
    → IsTop t.full t.maxfd
    → IsTop old.full old.maxfd
    → IsTop m.full m.maxfd
Merged-IsTop {t} {old} {m} h new top = record {
  bounded = λ i. ground (arith, h.full i, h.maxfd, new.bounded i, top.bounded i);
  attained = λ i. ground (arith, h.full i, h.maxfd, new.attained i, top.attained i);
  floor = λ i. ground (arith, h.maxfd, new.floor i, top.floor i);
}

-- The set that select(2) is asked about.
pub record IsUnion (fds : Fds) (m : ThreadFds) : Type 0 where
  pub full : (i : ℕ) → m.full i ≡ (fds.pd.full i || fds.ps.full i || fds.fs.full i)
  pub counted :
      m.fullcount
      ≡ pos (
          card (rounds fds.fs.maxfd) fds.fs.full
          + (card (rounds fds.ps.maxfd) fds.ps.full + card (rounds fds.pd.maxfd) fds.pd.full))
  pub top : IsTop m.full m.maxfd

-- Where `maxfd` is the largest member of each of the three sets, mux_fds leaves in `muxedfds` their
-- union, the number of their members, and the largest member of the union, whatever it held before.
pub mux_fds-IsUnion :
    (fds : Fds) (muxed : ThreadFds)
    → IsTop fds.pd.full fds.pd.maxfd
    → IsTop fds.ps.full fds.ps.maxfd
    → IsTop fds.fs.full fds.fs.maxfd
    → IsUnion fds (mux_fds fds muxed)
unfolding mux_fds
mux_fds-IsUnion fds muxed pd ps fs =
    let empty : ThreadFds = record muxed { maxfd = minus_one; fullcount = pos 0; full = fd_zero } in
    let a = mux_one-Merged fds.pd empty pd in
    let b = mux_one-Merged fds.ps (mux_one fds.pd empty) ps in
    let c = mux_one-Merged fds.fs (mux_one fds.ps (mux_one fds.pd empty)) fs in
    record {
      full = λ i. ground (arith, a.full i, b.full i, c.full i);
      counted = c.counted _ (b.counted _ (a.counted 0 refl ∙ ap pos (omega arith)));
      top = Merged-IsTop c fs (Merged-IsTop b ps (Merged-IsTop a pd no-IsTop));
    }
