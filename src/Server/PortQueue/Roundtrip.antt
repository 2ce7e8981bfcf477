-- ===== src/Server/PortQueue/Roundtrip.antt =====
-- port_enqueue, and close_port of the same client.
use diald_top.Base.{
  ℕ, ◌≡◌, refl, sym, ◌∙◌, ap, true, false, arith, ℤ, pos, negsuc, some, get_elem?, length,
}
use diald_top.Server.Fds.{FdSet}
use diald_top.Server.Ports.{Port}
use diald_top.Server.State.{Server}
use diald_top.Server.Select.Maxfd.{IsTop}
use diald_top.Server.PortQueue.{port_enqueue, close_port}
use diald_top.Server.PortQueue.Queue.{has, is_monitor, monitors}
use diald_top.Server.PortQueue.Keeps.{closed, port_enqueue-Inv, close_port-closed, closed-Inv}
use diald_top.Server.Invariant.{IsPlain, Inv}

-- A set has one largest member.
top_unique : (a b : FdSet) (m n : ℤ) → ((i : ℕ) → a i ≡ b i) → IsTop a m → IsTop b n → m ≡ n
top_unique a b (pos i) (pos j) e h k =
    ground (arith, e i, e j, h.attained i refl, k.attained j refl, h.bounded j, k.bounded i)
top_unique a b (pos i) (negsuc j) e h k = ground (arith, e i, h.attained i refl, k.bounded i)
top_unique a b (negsuc i) (pos j) e h k = ground (arith, e j, k.attained j refl, h.bounded j)
top_unique a b (negsuc i) (negsuc j) e h k = ap negsuc (h.floor i refl ∙ sym (k.floor j refl))

-- The queue and the sets of the port server are the same.
pub record SameQueue (s t : Server) : Type 0 where
  pub queue : t.pq ≡ s.pq
  pub full : (i : ℕ) → t.fds.ps.full i ≡ s.fds.ps.full i
  pub fullcount : t.fds.ps.fullcount ≡ s.fds.ps.fullcount
  pub maxfd : t.fds.ps.maxfd ≡ s.fds.ps.maxfd
  pub watchers : t.monitorcount ≡ s.monitorcount

-- By the invariant the queue says all of that.
same_queue : (s t : Server) → Inv s → Inv t → t.pq ≡ s.pq → SameQueue s t
same_queue s t v w e =
    let full : (i : ℕ) → t.fds.ps.full i ≡ s.fds.ps.full i =
      λ i. w.lists.full i ∙ (ap (has i) e ∙ sym (v.lists.full i)) in
    record {
      queue = e;
      full = full;
      fullcount = w.lists.fullcount ∙ (ap (λ ps. pos (length ps)) e ∙ sym v.lists.fullcount);
      maxfd = top_unique _ _ _ _ full w.lists.top v.lists.top;
      watchers = w.counted ∙ (ap (λ ps. pos (monitors ps)) e ∙ sym v.counted);
    }

left_queue : (p : Port) (s : Server) → (closed 0 p (port_enqueue true p s).1).pq ≡ s.pq
unfolding port_enqueue
left_queue p s = refl

joined_first : (p : Port) (s : Server) → get_elem? (port_enqueue true p s).1.pq 0 ≡ some p
unfolding port_enqueue
joined_first p s = refl

-- A client whose descriptor is new and which does not watch joins and leaves without a trace in the
-- queue and in the sets of the port server.
pub close_port-port_enqueue :
    (p : Port) (s : Server)
    → has p.fd s.pq ≡ false
    → IsPlain p
    → is_monitor p ≡ false
    → Inv s
    → SameQueue s (close_port p (port_enqueue true p s).1)
close_port-port_enqueue p s new plain still v =
    let w = port_enqueue-Inv true p s new plain still v in
    let first = joined_first p s in
    rw (close_port-closed w 0 first) (same_queue s _ v (closed-Inv w 0 first) (left_queue p s))
