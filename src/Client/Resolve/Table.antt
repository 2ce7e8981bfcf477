-- ===== src/Client/Resolve/Table.antt =====
-- The table as a map from addresses to records.
use diald_top.Base.{
  ℕ, zero, suc, ◌≡◌, refl, ap, Bool, true, false, ◌==◌, ◌⊎◌, inl, inr, arith, if◌then◌else◌, Option,
  none, some, List, [], ◌∷◌, get_elem?, set, Bool-cases, Option-cases,
}
use diald_top.Client.Resolve.{
  InAddr, same_addr, HostRec, HostHash, hash, find_node, probe_list, probetab, put_list, gettab,
  old_node, store, owned, Query,
}

-- The first node with the address.
unfoldable pub first : InAddr → List HostRec → Option HostRec
first a [] = none
first a (hr ∷ next) = let rest = first a next in if same_addr a hr.addr then some hr else rest

abbrev pub lookup : HostHash → InAddr → Option HostRec
lookup tab a = first a (tab (hash a))

pub same_addr_sound : (a b : InAddr) → same_addr a b ≡ true → a ≡ b
same_addr_sound a b e = ground arith

pub same_addr_refl : (a : InAddr) → same_addr a a ≡ true
same_addr_refl a = ground arith

same_addr_trans :
    (b a c : InAddr) → same_addr b a ≡ true → same_addr b c ≡ true → same_addr a c ≡ true
same_addr_trans b a c p q = ground arith

apart : {x y z : Bool} → (x ≡ true → y ≡ true → z ≡ true) → z ≡ false → y ≡ true → x ≡ false
apart {x = true} f p q = ground (arith, f refl q)
apart {x = false} f p q = refl

-- What find_node, the loop of probetab and `first` say together.
pub found_cases :
    (a : InAddr) (l : List HostRec)
    → ((find_node a l ≡ none) × (probe_list a l ≡ false) × (first a l ≡ none))
      ⊎ ((i : ℕ) × (hr : HostRec) × (find_node a l ≡ some i)
          × (probe_list a l ≡ true)
          × (first a l ≡ some hr)
          × (get_elem? l i ≡ some hr))
unfolding find_node probe_list first
found_cases a [] = inl (refl, refl, refl)
found_cases a (x ∷ l) = elim (Bool-cases (same_addr a x.addr)) [
  | inl e ↦ inr (0, x, ground arith, ground arith, ground arith, refl)
  | inr e ↦ elim (found_cases a l) [
    | inl (f, p, m) ↦ inl (ground arith, ground arith, ground arith)
    | inr (i, hr, f, p, m, g) ↦ inr (suc i, hr, ground arith, ground arith, ground arith, g)
  ]
]

-- A write over the first node of an address.
first-set :
    (l : List HostRec) (i : ℕ) (hr : HostRec) (b : InAddr)
    → find_node hr.addr l ≡ some i
    → first b (set l i hr) ≡ (if same_addr b hr.addr then some hr else first b l)
unfolding find_node first
first-set [] i hr b f = ground arith
first-set (x ∷ l) zero hr b f = elim (Bool-cases (same_addr hr.addr x.addr)) [
  | inl e ↦
      let same = same_addr_sound hr.addr x.addr e in
      rw same
        (elim (Bool-cases (same_addr b x.addr)) [ inl g ↦ ground arith | inr g ↦ ground arith ])
  | inr e ↦ elim (Option-cases (find_node hr.addr l)) [
    | inl g ↦ ground arith
    | inr (j, g) ↦ ground arith
  ]
]
first-set (x ∷ l) (suc i) hr b f = elim (Bool-cases (same_addr hr.addr x.addr)) [
  | inl e ↦ ground arith
  | inr e ↦ elim (Option-cases (find_node hr.addr l)) [
    | inl g ↦ ground arith
    | inr (j, g) ↦
        let rest = first-set l i hr b ground arith in
        elim (Bool-cases (same_addr b x.addr)) [
          | inl m ↦ ground (arith, rest, apart (same_addr_trans b hr.addr x.addr) e m)
          | inr m ↦ ground (arith, rest)
        ]
  ]
]

-- The map with one address bound anew.
abbrev pub bind : HostRec → (InAddr → Option HostRec) → InAddr → Option HostRec
bind hr m b = if same_addr b hr.addr then some hr else m b

lookup-put_list :
    (tab t : HostHash) (hr : HostRec) (l : List HostRec)
    → ((i : ℕ) → (i == hash hr.addr) ≡ false → t i ≡ tab i)
    → ((b : InAddr) → first b l ≡ bind hr (λ a. first a (tab (hash hr.addr))) b)
    → (b : InAddr) → lookup (put_list (hash hr.addr) l t) b ≡ bind hr (lookup tab) b
lookup-put_list tab t hr l others own b = elim (Bool-cases (hash b == hash hr.addr)) [
  | inl e ↦ let same : hash b ≡ hash hr.addr = ground arith in rw (e, same) (own b)
  | inr e ↦ elim (Bool-cases (same_addr b hr.addr)) [
    | inl g ↦ ground (arith, ap hash (same_addr_sound b hr.addr g))
    | inr g ↦ ground (arith, others (hash b) e)
  ]
]

gettab_old :
    (fresh : HostRec) (addr : InAddr) (tab : HostHash) (i : ℕ)
    → find_node addr (tab (hash addr)) ≡ some i
    → gettab fresh addr tab ≡ (i, tab)
unfolding gettab
gettab_old fresh addr tab i f = rw (f, gettab) refl

pub gettab_new :
    (fresh : HostRec) (addr : InAddr) (tab : HostHash)
    → find_node addr (tab (hash addr)) ≡ none
    → gettab fresh addr tab ≡ (0, put_list (hash addr) (fresh ∷ tab (hash addr)) tab)
unfolding gettab
gettab_new fresh addr tab f = rw (f, gettab) refl

pub lookup-store :
    (q : Query) (addr : InAddr) (hr : Option ℕ) (name trunc : List ℕ) (tab : HostHash)
    → find_node addr (tab (hash addr)) ≡ hr
    → (b : InAddr)
    → lookup (store q addr hr name trunc tab) b
      ≡ bind
          (record { addr = addr; name = name; trunc = trunc; time_resolved = q.now })
          (lookup tab)
          b
unfolding store owned first
lookup-store q addr none name trunc tab f b =
    let self : (hash addr == hash addr) ≡ true = ground arith in
    rw (gettab_new q.fresh addr tab f, self)
      (lookup-put_list tab (put_list (hash addr) (q.fresh ∷ tab (hash addr)) tab) _ _
        (λ i e. rw e refl) (λ a. refl) b)
lookup-store q addr (some i) name trunc tab f b =
    lookup-put_list tab tab _ _ (λ _ _. refl) (λ a. first-set (tab (hash addr)) i _ a f) b

pub old_node_lem :
    (fresh : HostRec) (addr : InAddr) (tab : HostHash)
    → old_node fresh addr tab ≡ (find_node addr (tab (hash addr)), tab)
unfolding old_node probetab
old_node_lem fresh addr tab = elim (found_cases addr (tab (hash addr))) [
  | inl (f, p, m) ↦ ground arith
  | inr (i, hr, f, p, m, g) ↦ rw (p, gettab_old fresh addr tab i f, f) refl
]
