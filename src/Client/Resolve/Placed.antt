-- ===== src/Client/Resolve/Placed.antt =====
-- The shape of the table of hosts.
use diald_top.Base.{
  ℕ, zero, suc, ◌≡◌, refl, sym, subst, ◌∙◌, true, false, ◌==◌, arith, inl, inr, Bool-cases,
  Option-cases, Option, none, some, List, [], ◌∷◌, All, set,
}
use diald_top.Client.Resolve.{
  InAddr, same_addr, HostRec, HostHash, Host, Query, hash, find_node, put_list, owned, store, learn,
  asks_host, node, resolve_addr, resolve,
}
use diald_top.Client.Resolve.Table.{same_addr_sound, gettab_new, old_node_lem}

-- No two nodes of a list have one address.
abbrev pub Unique : List HostRec → Type 0
Unique [] = Unit
Unique (hr ∷ l) = (find_node hr.addr l ≡ none) × Unique l

-- Every node stands in the list of its hash, and there once.
pub record IsPlaced (tab : HostHash) : Type 0 where
  pub home : (h : ℕ) → All (λ hr. hash hr.addr ≡ h) (tab h)
  pub once : (h : ℕ) → Unique (tab h)

-- To write over the first node of an address leaves every search as it is.
find_node-set :
    (l : List HostRec) (i : ℕ) (hr : HostRec) (b : InAddr)
    → find_node hr.addr l ≡ some i
    → find_node b (set l i hr) ≡ find_node b l
unfolding find_node
find_node-set [] i hr b f = refl
find_node-set (x ∷ l) zero hr b f = elim (Bool-cases (same_addr hr.addr x.addr)) [
  | inl e ↦ let same = same_addr_sound hr.addr x.addr e in rw same refl
  | inr e ↦ elim (Option-cases (find_node hr.addr l)) [
    | inl g ↦ ground arith
    | inr (j, g) ↦ ground arith
  ]
]
find_node-set (x ∷ l) (suc i) hr b f = elim (Bool-cases (same_addr hr.addr x.addr)) [
  | inl e ↦ ground arith
  | inr e ↦ elim (Option-cases (find_node hr.addr l)) [
    | inl g ↦ ground arith
    | inr (j, g) ↦ let rest = find_node-set l i hr b ground arith in rw rest refl
  ]
]

set-Unique :
    (l : List HostRec) (i : ℕ) (hr : HostRec)
    → find_node hr.addr l ≡ some i
    → Unique l
    → Unique (set l i hr)
unfolding find_node
set-Unique [] i hr f u = u
set-Unique (x ∷ l) zero hr f u = elim (Bool-cases (same_addr hr.addr x.addr)) [
  | inl e ↦ let same = same_addr_sound hr.addr x.addr e in (rw same u.0, u.1)
  | inr e ↦ elim (Option-cases (find_node hr.addr l)) [
    | inl g ↦ ground arith
    | inr (j, g) ↦ ground arith
  ]
]
set-Unique (x ∷ l) (suc i) hr f u = elim (Bool-cases (same_addr hr.addr x.addr)) [
  | inl e ↦ ground arith
  | inr e ↦ elim (Option-cases (find_node hr.addr l)) [
    | inl g ↦ ground arith
    | inr (j, g) ↦
        let deeper : find_node hr.addr l ≡ some i = ground arith in
        (find_node-set l i hr x.addr deeper ∙ u.0, set-Unique l i hr deeper u.1)
  ]
]

All-set_node :
    (P : HostRec → Type 0) (l : List HostRec) (i : ℕ) (hr : HostRec)
    → P hr
    → All P l
    → All P (set l i hr)
All-set_node P [] i hr h a = a
All-set_node P (x ∷ l) zero hr h a = (h, a.1)
All-set_node P (x ∷ l) (suc i) hr h a = (a.0, All-set_node P l i hr h a.1)

-- One list is replaced.
put_list-IsPlaced :
    (tab t : HostHash) (h : ℕ) (l : List HostRec)
    → ((i : ℕ) → (i == h) ≡ false → t i ≡ tab i)
    → All (λ hr. hash hr.addr ≡ h) l
    → Unique l
    → IsPlaced tab
    → IsPlaced (put_list h l t)
put_list-IsPlaced tab t h l others a u p = record {
  home = λ i. elim (Bool-cases (i == h)) [
    | inl e ↦
        let same : h ≡ i = ground arith in rw e (subst (λ j. All (λ hr. hash hr.addr ≡ j) l) same a)
    | inr e ↦ rw e (subst (All λ hr. hash hr.addr ≡ i) (sym (others i e)) (p.home i))
  ];
  once = λ i. elim (Bool-cases (i == h)) [
    | inl e ↦ rw e u
    | inr e ↦ rw e (subst Unique (sym (others i e)) (p.once i))
  ];
}

store-IsPlaced :
    (q : Query) (addr : InAddr) (hr : Option ℕ) (name trunc : List ℕ) (tab : HostHash)
    → find_node addr (tab (hash addr)) ≡ hr
    → IsPlaced tab
    → IsPlaced (store q addr hr name trunc tab)
unfolding store owned
store-IsPlaced q addr none name trunc tab f p =
    let self : (hash addr == hash addr) ≡ true = ground arith in
    rw (gettab_new q.fresh addr tab f, self)
      (put_list-IsPlaced tab (put_list (hash addr) (q.fresh ∷ tab (hash addr)) tab) (hash addr) _
        (λ i e. rw e refl) (refl, p.home (hash addr)) (f, p.once (hash addr)) p)
store-IsPlaced q addr (some i) name trunc tab f p =
    put_list-IsPlaced tab tab (hash addr) _ (λ _ _. refl)
      (All-set_node (λ hr. hash hr.addr ≡ hash addr) (tab (hash addr)) i _ refl
        (p.home (hash addr)))
      (set-Unique (tab (hash addr)) i _ f (p.once (hash addr))) p

learn-IsPlaced :
    (q : Query) (a : InAddr) (tab : HostHash) (h : Host)
    → IsPlaced tab
    → IsPlaced (learn q a (find_node a (tab (hash a))) tab h).1
unfolding learn
learn-IsPlaced q a tab Host.failed p = p
learn-IsPlaced q a tab Host.unknown p = store-IsPlaced q a _ q.aaddr q.aaddr tab refl p
learn-IsPlaced q a tab (Host.named name) p = store-IsPlaced q a _ name _ tab refl p

addr-IsPlaced :
    (q : Query) (a : InAddr) (tab : HostHash) → IsPlaced tab → IsPlaced (resolve_addr q a tab).1
unfolding resolve_addr
addr-IsPlaced q a tab p =
    rw (old_node_lem q.fresh a tab)
      (elim (Bool-cases (asks_host q (node a tab (find_node a (tab (hash a)))))) [
        | inl e ↦ rw e (learn-IsPlaced q a tab q.host p)
        | inr e ↦ rw e p
      ])

-- resolve keeps every node of the table in the list of its hash, and no two of one address, though
-- gettab puts a node there before it has an address.
resolve-IsPlaced : (q : Query) (tab : HostHash) → IsPlaced tab → IsPlaced (resolve q tab).1
unfolding resolve
resolve-IsPlaced q tab p = elim (Option-cases q.addr) [
  | inl e ↦ rw e p
  | inr (a, e) ↦
      rw e (elim (Bool-cases q.numeric) [ inl n ↦ rw n p | inr n ↦ rw n (addr-IsPlaced q a tab p) ])
]
