-- ===== src/Server/Select.antt =====
-- server/selection.c. The three sets are merged for one select(2) and its answer is split again.
pub mod Maxfd
pub mod Mux
pub mod Deliver
pub mod Demux
pub mod Keeps
use diald_top.Base.{
  ℕ, Bool, true, if◌then◌else◌, ℤ, pos, minus_one, inc, ltb_ℤ, eqb_ℤ, max_ℤ, rounds, for_while,
}
use diald_top.Server.Fds.{FdSet, fd_zero, fd_set, ThreadFds, Fds}

-- The body of the loop in adjust_maxfd.
abbrev note_max : FdSet → ℕ → ℤ → ℤ
note_max full i max = if full i then pos i else max

unfoldable pub adjust_maxfd : ThreadFds → ℤ → ℤ
adjust_maxfd t currfd =
    if eqb_ℤ t.maxfd currfd
    then for_while (rounds t.maxfd) 0 (λ _. true) (note_max t.full) minus_one
    else t.maxfd

-- The body of each loop in mux_fds.
abbrev mux_fd : FdSet → ℕ → ThreadFds → ThreadFds
mux_fd full i m =
    if full i then record m { full = fd_set i m.full; fullcount = inc m.fullcount } else m

-- One of the three loops, and the assignment that follows it.
mux_one : ThreadFds → ThreadFds → ThreadFds
mux_one t m = record merged { maxfd = max_ℤ t.maxfd merged.maxfd }
  where
    merged : ThreadFds
    merged = for_while (rounds t.maxfd) 0 (λ _. true) (mux_fd t.full) m

unfoldable pub mux_fds : Fds → ThreadFds → ThreadFds
unfolding mux_one
mux_fds fds muxed = mux_one fds.fs (
    mux_one fds.ps
      (mux_one fds.pd (record muxed { maxfd = minus_one; fullcount = pos 0; full = fd_zero })))

-- The locals and the sets that the loop of demux_fds writes.
pub record Split : Type 0 where
  pub fds : Fds
  pub count : ℤ

abbrev deliver : ℕ → ThreadFds → ThreadFds
deliver i t = if t.full i then record t { sel = fd_set i t.sel; selcount = inc t.selcount } else t

abbrev split_fd : FdSet → ℕ → Split → Split
split_fd ready i s =
    if ready i
    then record {
      fds = record { pd = deliver i s.fds.pd; ps = deliver i s.fds.ps; fs = deliver i s.fds.fs };
      count = inc s.count;
    }
    else s

abbrev clear_sel : ThreadFds → ThreadFds
clear_sel t = record t { sel = fd_zero; selcount = pos 0 }

abbrev cleared : Fds → Fds
cleared fds = record { pd = clear_sel fds.pd; ps = clear_sel fds.ps; fs = clear_sel fds.fs }

-- `garbage` is what the local `count`, which is never set, holds on entry.
unfoldable pub demux_fds : ℤ → ThreadFds → Fds → Fds
demux_fds garbage muxed fds =
    (for_while (rounds muxed.maxfd) 0 (λ s. ltb_ℤ s.count muxed.selcount) (split_fd muxed.full)
      (record { fds = cleared fds; count = garbage })).fds

-- `ready` and `result` are what select(2) leaves in the set and returns.
unfoldable pub do_select : ℤ → FdSet → ℤ → Fds → ThreadFds → Fds × ThreadFds
unfolding mux_fds demux_fds
do_select garbage ready result fds muxed =
    let asked = mux_fds fds muxed in
    let answered : ThreadFds = record asked { full = ready; selcount = result } in
    (demux_fds garbage answered fds, answered)
