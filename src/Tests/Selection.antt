-- ===== src/Tests/Selection.antt =====
-- Tests of server/selection.c.
use diald_top.Base.{ℕ, ◌≡◌, refl, false, ◌||◌, arith, pos, rounds, for_while}
use diald_top.Server.Fds.{FdSet, fd_zero, fd_set, fd_clr, ThreadFds}
use diald_top.Server.Select.{demux_fds, mux_fds, do_select}
use diald_top.Server.Select.Maxfd.{set-IsTop, no-IsTop}
use diald_top.Server.Select.Mux.{card, IsUnion, mux_fds-IsUnion}
use diald_top.Server.Select.Demux.{IsSplit, do_select-IsSplit, do_select_deaf}
use diald_top.Tests.{holding, two, two-Inv}

-- Descriptor 6, of the port server, is ready.
abbrev ready : FdSet
ready = fd_set 6 fd_zero

mux_fds-IsUnion_example : IsUnion two.fds (mux_fds two.fds two.muxedfds)
mux_fds-IsUnion_example =
    mux_fds-IsUnion two.fds two.muxedfds two-Inv.listening two-Inv.lists.top
      (set-IsTop 8 _ _ no-IsTop)

do_select-IsSplit_example :
    IsSplit
      (rounds (mux_fds two.fds two.muxedfds).maxfd)
      ready
      two.fds
      (do_select (pos 0) ready (pos 1) two.fds two.muxedfds).0
unfolding mux_fds card for_while
do_select-IsSplit_example =
    do_select-IsSplit ready (pos 1) two.fds two.muxedfds two-Inv.listening two-Inv.lists.top
      (set-IsTop 8 _ _ no-IsTop) (λ i. ground arith) refl

do_select_deaf_example :
    let served = (do_select (pos 1) ready (pos 1) two.fds two.muxedfds).0 in
    (served.pd.selcount ≡ pos 0)
    × (served.ps.selcount ≡ pos 0)
    × (served.fs.selcount ≡ pos 0)
    × ((i : ℕ) → (served.pd.sel i || served.ps.sel i || served.fs.sel i) ≡ false)
do_select_deaf_example = do_select_deaf (pos 1) ready (pos 1) two.fds two.muxedfds refl

-- Of 3 and 8, the larger one leaves.
abbrev left : ThreadFds
left = record (holding 8) { full = fd_clr 8 (fd_set 8 (fd_set 3 fd_zero)) }

-- The port server alone is told of descriptor 6.
told_port_server : (do_select (pos 0) ready (pos 1) two.fds two.muxedfds).0.ps.selcount ≡ pos 1
unfolding do_select mux_fds demux_fds for_while
told_port_server = refl
