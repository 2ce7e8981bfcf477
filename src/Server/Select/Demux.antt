-- ===== src/Server/Select/Demux.antt =====
-- demux_fds and do_select of server/selection.c: the answer of select(2), split three ways.
use native.Mathlib.Decide.{dec_lt}
use diald_top.Base.{
  ℕ, zero, suc, ◌+◌, ◌<◌, ◌≤◌, ◌≡◌, refl, ◌∙◌, ◌⊎◌, inl, inr, Bool, true, false, ◌||◌, arith,
  Bool-cases, ℤ, pos, ltb_ℤ, rounds, for_while, for_while_inv,
}
use diald_top.Server.Fds.{FdSet, ThreadFds, Fds}
use diald_top.Server.Select.{Split, split_fd, cleared, mux_fds, demux_fds, do_select}
use diald_top.Server.Select.Maxfd.{IsTop}
use diald_top.Server.Select.Mux.{card, mux_fds-IsUnion}
use diald_top.Server.Select.Deliver.{
  both, DeliveredBelow, start-DeliveredBelow, deliver-DeliveredBelow, skip-DeliveredBelow,
  finish-DeliveredBelow, card_mono,
}

-- The invariant of the loop in demux_fds, when `count` starts at 0.
record SplitBelow (fds : Fds) (ready : FdSet) (n : ℕ) (s : Split) : Type 0 where
  count : s.count ≡ pos (card n ready)
  pd : DeliveredBelow n ready fds.pd s.fds.pd
  ps : DeliveredBelow n ready fds.ps s.fds.ps
  fs : DeliveredBelow n ready fds.fs s.fds.fs

split_fd-SplitBelow :
    (fds : Fds) (ready : FdSet) (n : ℕ) (s : Split)
    → SplitBelow fds ready n s
    → SplitBelow fds ready (suc n) (split_fd ready n s)
unfolding card
split_fd-SplitBelow fds ready n s h = elim (Bool-cases (ready n)) [
  | inl hit ↦ rw hit (record {
    count = ground (arith, h.count);
    pd = deliver-DeliveredBelow ready n hit h.pd;
    ps = deliver-DeliveredBelow ready n hit h.ps;
    fs = deliver-DeliveredBelow ready n hit h.fs;
  })
  | inr miss ↦ rw miss (record {
    count = ground (arith, h.count);
    pd = skip-DeliveredBelow ready n miss h.pd;
    ps = skip-DeliveredBelow ready n miss h.ps;
    fs = skip-DeliveredBelow ready n miss h.fs;
  })
]

finish-SplitBelow :
    (fds : Fds) (ready : FdSet) (j n : ℕ) (s : Split)
    → j ≤ n
    → card n ready ≤ card j ready
    → SplitBelow fds ready j s
    → SplitBelow fds ready n s
finish-SplitBelow fds ready j n s le c h = record {
  count = ground (arith, h.count, card_mono j n ready le);
  pd = finish-DeliveredBelow ready j n le c h.pd;
  ps = finish-DeliveredBelow ready j n le c h.ps;
  fs = finish-DeliveredBelow ready j n le c h.fs;
}

-- With `count` at 0 the loop may stop early, but only once all is delivered.
loop-SplitBelow :
    (fds : Fds) (ready : FdSet) (n : ℕ)
    → let start : Split = record { fds = cleared fds; count = pos 0 } in
      SplitBelow fds ready n
        (for_while n 0 (λ s. ltb_ℤ s.count (pos (card n ready))) (split_fd ready) start)
unfolding card
loop-SplitBelow fds ready n =
    let start : Split = record { fds = cleared fds; count = pos 0 } in
    let test : Split → Bool = λ s. ltb_ℤ s.count (pos (card n ready)) in
    let (j, le, p, e) =
      for_while_inv (SplitBelow fds ready) test (split_fd ready)
        (λ i s _ h. split_fd-SplitBelow fds ready i s h) n 0 start
        (record {
          count = refl;
          pd = start-DeliveredBelow ready fds.pd;
          ps = start-DeliveredBelow ready fds.ps;
          fs = start-DeliveredBelow ready fds.fs;
        }) in
    finish-SplitBelow fds ready j n _ (omega arith) (stopped p.count e) p
  where
    stopped :
        {j : ℕ} {count : ℤ}
        → count ≡ pos (card j ready)
        → (j ≡ 0 + n) ⊎ (ltb_ℤ count (pos (card n ready)) ≡ false)
        → card n ready ≤ card j ready
    stopped {j} c (inl e) = let e' : j ≡ n = omega arith in rw e' (omega arith)
    stopped c (inr e) = ground arith

-- Of `ready`, `t'` has its own members in `sel` and their number in `selcount`; the rest is `t`.
pub record Delivered (n : ℕ) (ready : FdSet) (t t' : ThreadFds) : Type 0 where
  pub sel : (i : ℕ) → t'.sel i ≡ both ready t.full i
  pub selcount : t'.selcount ≡ pos (card n (both ready t.full))
  pub full : t'.full ≡ t.full
  pub fullcount : t'.fullcount ≡ t.fullcount
  pub maxfd : t'.maxfd ≡ t.maxfd

Delivered-of_below :
    (n : ℕ) (ready : FdSet) {t t' : ThreadFds}
    → ((i : ℕ) → ready i ≡ true → i < n)
    → DeliveredBelow n ready t t'
    → Delivered n ready t t'
Delivered-of_below n ready in_range h = record {
  sel =
      λ i. elim (dec_lt i n) [ yes p ↦ h.below i p | no p ↦ ground (arith, in_range i, h.above i) ];
  selcount = h.counted;
  full = h.full;
  fullcount = h.fullcount;
  maxfd = h.maxfd;
}

pub record IsSplit (n : ℕ) (ready : FdSet) (fds fds' : Fds) : Type 0 where
  pub pd : Delivered n ready fds.pd fds'.pd
  pub ps : Delivered n ready fds.ps fds'.ps
  pub fs : Delivered n ready fds.fs fds'.fs

-- When the local `count` happens to hold 0 on entry, `muxedfds.selcount` is the number of members
-- of the ready set, and all of them are at most `muxedfds.maxfd`, demux_fds gives each of the three
-- sets exactly its own ready members and their number, and changes nothing else of it.
demux_fds-IsSplit :
    (muxed : ThreadFds) (fds : Fds)
    → ((i : ℕ) → muxed.full i ≡ true → i < rounds muxed.maxfd)
    → muxed.selcount ≡ pos (card (rounds muxed.maxfd) muxed.full)
    → IsSplit (rounds muxed.maxfd) muxed.full fds (demux_fds (pos 0) muxed fds)
unfolding demux_fds
demux_fds-IsSplit muxed fds in_range answered =
    let n = rounds muxed.maxfd in
    let h = loop-SplitBelow fds muxed.full n in
    rw answered (record {
      pd = Delivered-of_below n muxed.full in_range h.pd;
      ps = Delivered-of_below n muxed.full in_range h.ps;
      fs = Delivered-of_below n muxed.full in_range h.fs;
    })

-- Where `maxfd` is the largest member of each of the three sets, the answer of select(2) is a subset
-- of what it was asked about with the number of its members, and the uninitialised local `count` of
-- demux_fds happens to hold 0, do_select gives each of the three sets exactly its own ready members
-- and their number, and changes nothing else of it.
pub do_select-IsSplit :
    (ready : FdSet) (result : ℤ) (fds : Fds) (muxed : ThreadFds)
    → IsTop fds.pd.full fds.pd.maxfd
    → IsTop fds.ps.full fds.ps.maxfd
    → IsTop fds.fs.full fds.fs.maxfd
    → ((i : ℕ) → ready i ≡ true → (fds.pd.full i || fds.ps.full i || fds.fs.full i) ≡ true)
    → result ≡ pos (card (rounds (mux_fds fds muxed).maxfd) ready)
    → IsSplit
        (rounds (mux_fds fds muxed).maxfd)
        ready
        fds
        (do_select (pos 0) ready result fds muxed).0
unfolding do_select
do_select-IsSplit ready result fds muxed pd ps fs asked counted =
    let m = mux_fds-IsUnion fds muxed pd ps fs in
    demux_fds-IsSplit (record (mux_fds fds muxed) { full = ready; selcount = result }) fds
      (λ i h. m.top.bounded i (m.full i ∙ asked i h)) counted

for_while_stops {ℓ} :
    {S : Type ℓ} (n i : ℕ) (test : S → Bool) (body : ℕ → S → S) (s : S)
    → test s ≡ false
    → for_while n i test body s ≡ s
unfolding for_while
for_while_stops zero i test body s e = refl
for_while_stops (suc n) i test body s e = rw e

-- When that local holds no less than the answer of select(2), do_select reports nothing as ready to
-- any of the three, whatever is ready.
pub do_select_deaf :
    (garbage : ℤ) (ready : FdSet) (result : ℤ) (fds : Fds) (muxed : ThreadFds)
    → ltb_ℤ garbage result ≡ false
    → let served = (do_select garbage ready result fds muxed).0 in
      (served.pd.selcount ≡ pos 0)
      × (served.ps.selcount ≡ pos 0)
      × (served.fs.selcount ≡ pos 0)
      × ((i : ℕ) → (served.pd.sel i || served.ps.sel i || served.fs.sel i) ≡ false)
unfolding do_select demux_fds
do_select_deaf garbage ready result fds muxed e =
    rw
      (for_while_stops (rounds (mux_fds fds muxed).maxfd) 0 (λ (s : Split). ltb_ℤ s.count result)
        (split_fd ready) (record { fds = cleared fds; count = garbage }) e)
      (refl, refl, refl, λ i. refl)
