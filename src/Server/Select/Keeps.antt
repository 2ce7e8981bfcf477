-- ===== src/Server/Select/Keeps.antt =====
-- do_select leaves what the three servers watch as it is, whatever select(2) answers and whatever
-- `count` holds on entry.
use diald_top.Base.{ℕ, ◌≡◌, refl, arith, ℤ, ltb_ℤ, rounds, for_while_inv}
use diald_top.Server.Fds.{FdSet, ThreadFds, Fds}
use diald_top.Server.Select.{Split, split_fd, cleared, mux_fds, demux_fds, do_select}

-- The fields that say what is watched.
pub record Watches (t t' : ThreadFds) : Type 0 where
  pub full : t'.full ≡ t.full
  pub fullcount : t'.fullcount ≡ t.fullcount
  pub maxfd : t'.maxfd ≡ t.maxfd

pub record Unchanged (fds fds' : Fds) : Type 0 where
  pub pd : Watches fds.pd fds'.pd
  pub ps : Watches fds.ps fds'.ps
  pub fs : Watches fds.fs fds'.fs

split_fd-Unchanged :
    (fds : Fds) (ready : FdSet) (i : ℕ) (s : Split)
    → Unchanged fds s.fds
    → Unchanged fds (split_fd ready i s).fds
split_fd-Unchanged fds ready i s h = record {
  pd = record {
    full = ground (arith, h.pd.full);
    fullcount = ground (arith, h.pd.fullcount);
    maxfd = ground (arith, h.pd.maxfd);
  };
  ps = record {
    full = ground (arith, h.ps.full);
    fullcount = ground (arith, h.ps.fullcount);
    maxfd = ground (arith, h.ps.maxfd);
  };
  fs = record {
    full = ground (arith, h.fs.full);
    fullcount = ground (arith, h.fs.fullcount);
    maxfd = ground (arith, h.fs.maxfd);
  };
}

pub do_select-Unchanged :
    (garbage : ℤ) (ready : FdSet) (result : ℤ) (fds : Fds) (muxed : ThreadFds)
    → Unchanged fds (do_select garbage ready result fds muxed).0
unfolding do_select demux_fds
do_select-Unchanged garbage ready result fds muxed =
    let (j, le, p, e) =
      for_while_inv (λ i (s : Split). Unchanged fds s.fds) (λ s. ltb_ℤ s.count result)
        (split_fd ready) (λ i s _ h. split_fd-Unchanged fds ready i s h)
        (rounds (mux_fds fds muxed).maxfd) 0 (record { fds = cleared fds; count = garbage })
        (record {
          pd = record { full = refl; fullcount = refl; maxfd = refl };
          ps = record { full = refl; fullcount = refl; maxfd = refl };
          fs = record { full = refl; fullcount = refl; maxfd = refl };
        }) in
    p
