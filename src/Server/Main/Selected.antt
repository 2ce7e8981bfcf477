-- ===== src/Server/Main/Selected.antt =====
-- do_select keeps the invariant.
use diald_top.Base.{ap, ◌∙◌, sym, List}
use mathlib.Core.Path.{subst₂}
use diald_top.Server.Fds.{ThreadFds}
use diald_top.Server.Ports.{Port}
use diald_top.Server.State.{Descriptor, Server}
use diald_top.Server.Select.Maxfd.{IsTop}
use diald_top.Server.Select.Keeps.{Watches, do_select-Unchanged}
use diald_top.Server.Invariant.{Lists, HoldsPipe, Inv}
use diald_top.Server.Main.{Round, selected}

Watches-Lists : {t t' : ThreadFds} {pq : List Port} → Watches t t' → Lists t pq → Lists t' pq
Watches-Lists w h = record {
  full = λ i. ap (λ z. z i) w.full ∙ h.full i;
  fullcount = w.fullcount ∙ h.fullcount;
  top = subst₂ IsTop (sym w.full) (sym w.maxfd) h.top;
}

Watches-HoldsPipe :
    {t t' : ThreadFds} {pipe : Descriptor} → Watches t t' → HoldsPipe t pipe → HoldsPipe t' pipe
Watches-HoldsPipe w h = record {
  full = λ i. ap (λ z. z i) w.full ∙ h.full i;
  fullcount = w.fullcount ∙ h.fullcount;
  maxfd = w.maxfd ∙ h.maxfd;
}

pub selected-Inv : (r : Round) (s : Server) → Inv s → Inv (selected r s)
selected-Inv r s v =
    let u = do_select-Unchanged r.garbage r.ready r.result s.fds s.muxedfds in
    record {
      distinct = v.distinct;
      plain = v.plain;
      lists = Watches-Lists u.ps v.lists;
      counted = v.counted;
      pipe = Watches-HoldsPipe u.fs v.pipe;
      listening = subst₂ IsTop (sym u.pd.full) (sym u.pd.maxfd) v.listening;
    }
