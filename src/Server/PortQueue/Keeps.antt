-- ===== src/Server/PortQueue/Keeps.antt =====
-- port_enqueue and close_port keep the invariant.
use diald_top.Base.{
  Bool, ℕ, ◌≡◌, refl, ◌∙◌, true, false, arith, some, get_elem?, if◌then◌else◌, ◌==◌, dec, ◌∷◌,
}
use diald_top.Server.Ports.{Port}
use diald_top.Server.State.{Event, Server, with_ps}
use diald_top.Server.Select.Maxfd.{IsTop, set-IsTop, adjust_maxfd-IsTop}
use diald_top.Server.PortQueue.{port_enqueue, forget_fd, dequeue, hang_up, close_port}
use diald_top.Server.PortQueue.Queue.{
  is_monitor, has, monitors, delete_at, has_of_get, unlink-delete_at, has-delete_at,
  length-delete_at, monitors-delete_at, Distinct-delete_at, All-delete_at,
}
use diald_top.Server.Invariant.{IsPlain, Lists, Inv}

-- A client whose descriptor is new, with flags of ports.h and not yet a monitor, may join.
pub port_enqueue-Inv :
    (allocated : Bool) (p : Port) (s : Server)
    → has p.fd s.pq ≡ false
    → IsPlain p
    → is_monitor p ≡ false
    → Inv s
    → Inv (port_enqueue allocated p s).1
unfolding port_enqueue has monitors
port_enqueue-Inv false p s new plain quiet v = v
port_enqueue-Inv true p s new plain quiet v = record {
  distinct = (new, v.distinct);
  plain = (plain, v.plain);
  lists = record {
    full = λ i. ground (arith, v.lists.full i);
    fullcount = ground (arith, v.lists.fullcount);
    top = set-IsTop p.fd _ _ v.lists.top;
  };
  counted = ground (arith, v.counted);
  pipe = v.pipe;
  listening = v.listening;
}

-- The server without its client `k`, whose connection is closed.
abbrev pub closed : ℕ → Port → Server → Server
closed k p s = with_ps (forget_fd p.fd s.fds.ps) (record (hang_up p s) { pq = delete_at k s.pq })

module _ {s : Server} (v : Inv s) (k : ℕ) {p : Port} (at : get_elem? s.pq k ≡ some p) where
  listed : s.fds.ps.full p.fd ≡ true
  listed = v.lists.full p.fd ∙ has_of_get s.pq k at

  -- Of a client of the queue, close_port closes the connection, and takes out its own node.
  pub close_port-closed : close_port p s ≡ closed k p s
  unfolding close_port dequeue hang_up
  close_port-closed = rw listed (ground (arith, unlink-delete_at s.pq k v.distinct at))

  forget_fd-Lists : Lists (forget_fd p.fd s.fds.ps) (delete_at k s.pq)
  unfolding forget_fd
  forget_fd-Lists = record {
    full = λ i. ground (arith, v.lists.full i, has-delete_at i s.pq k v.distinct at);
    fullcount = ground (arith, v.lists.fullcount, length-delete_at s.pq k at);
    top = adjust_maxfd-IsTop _ s.fds.ps.full p.fd v.lists.top (λ i. refl);
  }

  pub closed-Inv : Inv (closed k p s)
  unfolding hang_up
  closed-Inv = record {
    distinct = Distinct-delete_at s.pq k v.distinct at;
    plain = All-delete_at IsPlain s.pq k v.plain;
    lists = forget_fd-Lists;
    counted = ground (arith, v.counted, monitors-delete_at s.pq k at);
    pipe = ground (arith, v.pipe);
    listening = ground (arith, v.listening);
  }

-- The server without its client `k`.
pub record Left (k : ℕ) (p : Port) (s t : Server) : Type 0 where
  pub queue : t.pq ≡ delete_at k s.pq
  pub full : (i : ℕ) → t.fds.ps.full i ≡ (if p.fd == i then false else s.fds.ps.full i)
  pub fullcount : t.fds.ps.fullcount ≡ dec s.fds.ps.fullcount
  pub maxfd : IsTop t.fds.ps.full t.fds.ps.maxfd
  pub ready : (t.fds.ps.selcount ≡ s.fds.ps.selcount) × (t.fds.ps.sel ≡ s.fds.ps.sel)
  pub trace : t.trace ≡ Event.closes p.fd ∷ s.trace
  pub watching : t.monitorcount ≡ (if is_monitor p then dec s.monitorcount else s.monitorcount)
  pub others : (t.fds.pd ≡ s.fds.pd) × (t.fds.fs ≡ s.fds.fs) × (t.muxedfds ≡ s.muxedfds)
  pub globals :
      (t.aq ≡ s.aq)
      × (t.controlfd ≡ s.controlfd)
      × (t.monitorfd ≡ s.monitorfd)
      × (t.monitor ≡ s.monitor)

-- For a client of the queue, close_port closes the connection, takes out its own node and no other, and
-- its descriptor out of the full set of the port server, whose count is one less and whose maximum is
-- that of what is left. Of a client that watches the counter is one less. All else stays.
pub close_port-Left :
    {s : Server} (v : Inv s) (k : ℕ) {p : Port}
    → get_elem? s.pq k ≡ some p
    → Left k p s (close_port p s)
unfolding hang_up forget_fd
close_port-Left {s} v k {p} at = rw (close_port-closed v k at) (record {
  queue = refl;
  full = λ i. ground arith;
  fullcount = refl;
  maxfd = (closed-Inv v k at).lists.top;
  ready = (refl, refl);
  trace = ground arith;
  watching = ground arith;
  others = (ground arith, ground arith, ground arith);
  globals = (ground arith, ground arith, ground arith, ground arith);
})
