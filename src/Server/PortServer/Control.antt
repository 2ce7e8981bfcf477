-- ===== src/Server/PortServer/Control.antt =====
-- The reasons that port_server may have for what it does to the outside.
use mathlib.Core.List.{append_assoc}
use diald_top.Base.{
  zero, suc, arith, get_elem?, set, ℕ, ◌≡◌, refl, sym, ◌∙◌, ap, Bool, true, false, ◌&&◌, ◌||◌, ◌==◌,
  some, List, [], ◌∷◌, ◌++◌, All,
}
use diald_top.Server.Ports.{Port, flag_write, has_flag}
use diald_top.Server.State.{Descriptor, Event}
use diald_top.Server.PortQueue.Queue.{delete_at}
use diald_top.Server.Monitor.{command_line}
use diald_top.Server.Commands.{refusal}
use diald_top.Server.PortServer.{Answers}

-- The client at this descriptor has control access.
abbrev pub may_command : ℕ → List Port → Bool
may_command fd [] = false
may_command fd (p ∷ ps) = ((p.fd == fd) && has_flag p.flag flag_write) || may_command fd ps

-- Whoever has control access in the one queue has it in the other.
abbrev pub Within : List Port → List Port → Type 0
Within ps qs = (fd : ℕ) → may_command fd ps ≡ true → may_command fd qs ≡ true

pub may_command_of_get :
    (ps : List Port) (k : ℕ) {p : Port}
    → get_elem? ps k ≡ some p
    → has_flag p.flag flag_write ≡ true
    → may_command p.fd ps ≡ true
may_command_of_get [] k e w = cc
may_command_of_get (q ∷ ps) zero e w = ground arith
may_command_of_get (q ∷ ps) (suc k) {p} e w = ground (arith, may_command_of_get ps k e w)

pub may_command_delete_at : (ps : List Port) (k : ℕ) → Within (delete_at k ps) ps
may_command_delete_at [] k fd h = h
may_command_delete_at (q ∷ ps) zero fd h = ground arith
may_command_delete_at (q ∷ ps) (suc k) fd h = ground (arith, may_command_delete_at ps k fd)

pub may_command_set :
    (ps : List Port) (k : ℕ) {p : Port} (q : Port)
    → get_elem? ps k ≡ some p
    → q.fd ≡ p.fd
    → has_flag q.flag flag_write ≡ has_flag p.flag flag_write
    → Within (set ps k q) ps
may_command_set [] k q e f w fd h = cc
may_command_set (r ∷ ps) zero q e f w fd h = ground arith
may_command_set (r ∷ ps) (suc k) q e f w fd h = ground (arith, may_command_set ps k q e f w fd)

-- Why port_server does something to the outside: it hangs up; it passes on the line of a client that
-- has control access; it refuses a line; it makes the monitor pipe, and tells diald of it.
pub data Origin (a : Answers) (control : Descriptor) (pq : List Port) : Event → Type 0 where
  hung_up : (fd : ℕ) → Origin a control pq (Event.closes fd)
  commanded :
      (fd : ℕ) → may_command fd pq ≡ true → Origin a control pq (Event.writes control (a.recv fd))
  refused : (fd : ℕ) → Origin a control pq (Event.writes (some fd) (refusal (a.recv fd)))
  made : (fd : ℕ) → Origin a control pq (Event.mknods (a.pipe fd).name)
  told : (fd : ℕ) → Origin a control pq (Event.writes control (command_line (a.pipe fd).name))

-- The trace goes on by events that all have such a reason.
pub record Accounted (a : Answers) (control : Descriptor) (pq : List Port) (old new : List Event)
    : Type 0 where
  pub events : List Event
  pub later : new ≡ events ++ old
  pub reasons : All (Origin a control pq) events

module _ (a : Answers) (control : Descriptor) where
  pub quiet : (pq : List Port) (old : List Event) → Accounted a control pq old old
  quiet pq old = record { events = []; later = refl; reasons = tt }

  pub one :
      {pq : List Port} {e : Event} (old : List Event)
      → Origin a control pq e
      → Accounted a control pq old (e ∷ old)
  one {e} old o = record { events = e ∷ []; later = refl; reasons = (o, tt) }

  All-append :
      (pq : List Port) (xs ys : List Event)
      → All (Origin a control pq) xs
      → All (Origin a control pq) ys
      → All (Origin a control pq) (xs ++ ys)
  All-append pq [] ys h k = k
  All-append pq (x ∷ xs) ys h k = (h.0, All-append pq xs ys h.1 k)

  pub join :
      {pq : List Port} {x y z : List Event}
      → Accounted a control pq x y
      → Accounted a control pq y z
      → Accounted a control pq x z
  join {pq} {x} {y} {z} h k = record {
    events = k.events ++ h.events;
    later = k.later ∙ (ap (λ t. k.events ++ t) h.later ∙ sym (append_assoc k.events h.events x));
    reasons = All-append pq k.events h.events k.reasons h.reasons;
  }

  Origin-Within :
      {ps qs : List Port} {e : Event} → Within ps qs → Origin a control ps e → Origin a control qs e
  Origin-Within w (hung_up fd) = hung_up fd
  Origin-Within w (commanded fd h) = commanded fd (w fd h)
  Origin-Within w (refused fd) = refused fd
  Origin-Within w (made fd) = made fd
  Origin-Within w (told fd) = told fd

  All-Within :
      (ps qs : List Port) (es : List Event)
      → Within ps qs
      → All (Origin a control ps) es
      → All (Origin a control qs) es
  All-Within ps qs [] w h = tt
  All-Within ps qs (e ∷ es) w h = (Origin-Within w h.0, All-Within ps qs es w h.1)

  pub Accounted-Within :
      {ps qs : List Port} {x y : List Event}
      → Within ps qs
      → Accounted a control ps x y
      → Accounted a control qs x y
  Accounted-Within {ps} {qs} w h = record {
    events = h.events;
    later = h.later;
    reasons = All-Within ps qs h.events w h.reasons;
  }
