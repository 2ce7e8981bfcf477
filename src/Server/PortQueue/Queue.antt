-- ===== src/Server/PortQueue/Queue.antt =====
-- The queue as a list of clients with distinct descriptors, and what close_port's loop makes of it.
use diald_top.Base.{
  ℕ, zero, suc, ◌+◌, ◌≡◌, refl, ap, ◌∙◌, subst, Bool, true, false, not, ◌&&◌, ◌||◌, arith, ◌==◌,
  if◌then◌else◌, Bool-cases, Option-cases, inl, inr, some, List, [], ◌∷◌, length, get_elem?, set,
  All,
}
use diald_top.Server.Ports.{Port, flag_monitor, has_flag, same_port}
use diald_top.Server.PortQueue.{unlink}

abbrev pub is_monitor : Port → Bool
is_monitor p = has_flag p.flag flag_monitor

-- Some client has this descriptor.
unfoldable pub has : ℕ → List Port → Bool
has fd [] = false
has fd (p ∷ ps) = (p.fd == fd) || has fd ps

-- The number of clients that watch the monitor pipe.
unfoldable pub monitors : List Port → ℕ
monitors [] = 0
monitors (p ∷ ps) = (if is_monitor p then 1 else 0) + monitors ps

-- No two clients have one descriptor.
abbrev pub Distinct : List Port → Type 0
Distinct [] = Unit
Distinct (p ∷ ps) = (has p.fd ps ≡ false) × Distinct ps

abbrev pub delete_at : ℕ → List Port → List Port
delete_at k [] = []
delete_at zero (p ∷ ps) = ps
delete_at (suc k) (p ∷ ps) = p ∷ delete_at k ps

same_port_refl : (p : Port) → same_port p p ≡ true
unfolding same_port
same_port_refl p = elim (Option-cases p.userid) [
  | inl e ↦ rw e (ground arith)
  | inr (s, e) ↦ rw e (ground arith)
]

same_port_fd : (p q : Port) → (p.fd == q.fd) ≡ false → same_port p q ≡ false
unfolding same_port
same_port_fd p q e = rw e

pub has_of_get : (ps : List Port) (k : ℕ) {p : Port} → get_elem? ps k ≡ some p → has p.fd ps ≡ true
unfolding has
has_of_get [] k e = cc
has_of_get (q ∷ ps) zero e = ground arith
has_of_get (q ∷ ps) (suc k) {p} e = ground (arith, has_of_get ps k e)

has-congr : (i j : ℕ) (ps : List Port) → (i == j) ≡ true → has i ps ≡ has j ps
has-congr i j ps e = let same : i ≡ j = ground arith in rw same

-- Among distinct descriptors the first node equal to a client is the client's own.
pub unlink-delete_at :
    (ps : List Port) (k : ℕ) {p : Port}
    → Distinct ps
    → get_elem? ps k ≡ some p
    → unlink p ps ≡ some (delete_at k ps)
unfolding unlink
unlink-delete_at [] k d e = cc
unlink-delete_at (q ∷ ps) zero {p} d e = ground (arith, same_port_refl p)
unlink-delete_at (q ∷ ps) (suc k) {p} d e =
    let other : (q.fd == p.fd) ≡ false = ground (arith, has_of_get ps k e) in
    rw (same_port_fd q p other, unlink-delete_at ps k d.1 e)

pub has-delete_at :
    (i : ℕ) (ps : List Port) (k : ℕ) {p : Port}
    → Distinct ps
    → get_elem? ps k ≡ some p
    → has i (delete_at k ps) ≡ (not (p.fd == i) && has i ps)
unfolding has
has-delete_at i [] k d e = cc
has-delete_at i (q ∷ ps) zero {p} d e =
    let same : q ≡ p = ground arith in
    rw (← same) (elim (Bool-cases (q.fd == i)) [
      | inl hit ↦ let at : q.fd ≡ i = ground arith in rw hit (rw (← at) d.0)
      | inr miss ↦ rw miss
    ])
has-delete_at i (q ∷ ps) (suc k) {p} d e =
    ground (arith, has-delete_at i ps k d.1 e, has_of_get ps k e, has-congr p.fd i ps)

pub length-delete_at :
    (ps : List Port) (k : ℕ) {p : Port}
    → get_elem? ps k ≡ some p
    → length ps ≡ suc (length (delete_at k ps))
length-delete_at [] k e = cc
length-delete_at (q ∷ ps) zero e = refl
length-delete_at (q ∷ ps) (suc k) e = omega (arith, length-delete_at ps k e)

pub monitors-delete_at :
    (ps : List Port) (k : ℕ) {p : Port}
    → get_elem? ps k ≡ some p
    → monitors ps ≡ (if is_monitor p then 1 else 0) + monitors (delete_at k ps)
unfolding monitors
monitors-delete_at [] k e = cc
monitors-delete_at (q ∷ ps) zero {p} e = let same : q ≡ p = ground arith in rw same
monitors-delete_at (q ∷ ps) (suc k) e = omega (arith, monitors-delete_at ps k e)

-- A client's record written over by one with the same descriptor.
pub has-set :
    (i : ℕ) (ps : List Port) (k : ℕ) {p : Port} (q : Port)
    → get_elem? ps k ≡ some p
    → q.fd ≡ p.fd
    → has i (set ps k q) ≡ has i ps
unfolding has
has-set i [] k q e f = cc
has-set i (r ∷ ps) zero {p} q e f = ground arith
has-set i (r ∷ ps) (suc k) q e f = rw (has-set i ps k q e f)

pub length-set : (ps : List Port) (k : ℕ) (q : Port) → length (set ps k q) ≡ length ps
length-set [] k q = refl
length-set (r ∷ ps) zero q = refl
length-set (r ∷ ps) (suc k) q = ap suc (length-set ps k q)

pub monitors-set :
    (ps : List Port) (k : ℕ) {p : Port} (q : Port)
    → get_elem? ps k ≡ some p
    → monitors (set ps k q) + (if is_monitor p then 1 else 0)
      ≡ monitors ps + (if is_monitor q then 1 else 0)
unfolding monitors
monitors-set [] k q e = cc
monitors-set (r ∷ ps) zero {p} q e = let same : r ≡ p = ground arith in rw same (omega arith)
monitors-set (r ∷ ps) (suc k) q e = omega (arith, monitors-set ps k q e)

pub Distinct-delete_at :
    (ps : List Port) (k : ℕ) {p : Port}
    → Distinct ps
    → get_elem? ps k ≡ some p
    → Distinct (delete_at k ps)
Distinct-delete_at [] k d e = cc
Distinct-delete_at (q ∷ ps) zero d e = d.1
Distinct-delete_at (q ∷ ps) (suc k) d e =
    (ground (arith, d.0, has-delete_at q.fd ps k d.1 e), Distinct-delete_at ps k d.1 e)

pub Distinct-set :
    (ps : List Port) (k : ℕ) {p : Port} (q : Port)
    → Distinct ps
    → get_elem? ps k ≡ some p
    → q.fd ≡ p.fd
    → Distinct (set ps k q)
Distinct-set [] k q d e f = d
Distinct-set (r ∷ ps) zero q d e f = (ground (arith, d.0), d.1)
Distinct-set (r ∷ ps) (suc k) q d e f = (has-set r.fd ps k q e f ∙ d.0, Distinct-set ps k q d.1 e f)

module _ {ℓ} (P : Port → Type ℓ) where
  pub All-delete_at : (ps : List Port) (k : ℕ) → All P ps → All P (delete_at k ps)
  All-delete_at [] k a = a
  All-delete_at (q ∷ ps) zero a = a.1
  All-delete_at (q ∷ ps) (suc k) a = (a.0, All-delete_at ps k a.1)

  pub All-set : (ps : List Port) (k : ℕ) (q : Port) → P q → All P ps → All P (set ps k q)
  All-set [] k q h a = a
  All-set (r ∷ ps) zero q h a = (h, a.1)
  All-set (r ∷ ps) (suc k) q h a = (a.0, All-set ps k q h a.1)

  pub All-get : (ps : List Port) (k : ℕ) {p : Port} → All P ps → get_elem? ps k ≡ some p → P p
  All-get [] k a e = cc
  All-get (q ∷ ps) zero {p} a e = let same : q ≡ p = ground arith in subst P same a.0
  All-get (q ∷ ps) (suc k) a e = All-get ps k a.1 e
