-- ===== src/Client/Resolve/Refines.antt =====
-- resolve against a map from addresses to records.
use diald_top.Base.{
  ℕ, ◌≡◌, refl, arith, if◌then◌else◌, Option, none, some, List, inl, inr, Bool-cases, Option-cases,
}
use diald_top.Client.Resolve.{
  InAddr, HostRec, HostHash, hash, find_node, node, Host, Query, asks_host, shown, learn,
  truncate_hostname, resolve_addr, resolve,
}
use diald_top.Client.Resolve.Table.{lookup, bind, lookup-store, old_node_lem, found_cases}

abbrev pub HostMap : Type 0
HostMap = InAddr → Option HostRec

-- What resolve is to do with a map, once gethostbyaddr has answered and before.
abbrev pub learn_in_map : Query → InAddr → HostMap → Host → List ℕ × HostMap
learn_in_map q a m Host.failed = (q.aaddr, m)
learn_in_map q a m Host.unknown =
    (q.aaddr, bind (record { addr = a; name = q.aaddr; trunc = q.aaddr; time_resolved = q.now }) m)
learn_in_map q a m (Host.named name) =
    let trunc = truncate_hostname q.mydomain name in
    (
      if q.trunc_local_hosts then trunc else name,
      bind (record { addr = a; name = name; trunc = trunc; time_resolved = q.now }) m,
    )

abbrev pub resolve_in_map : Query → HostMap → List ℕ × HostMap
resolve_in_map q m = elim q.addr [
  | none ↦ (q.aaddr, m)
  | some a ↦
      if q.numeric
      then (q.aaddr, m)
      else if asks_host q (m a)
      then learn_in_map q a m q.host
      else (shown q (m a), m)
]

-- The answer is the one of the map, and the table goes to what stands for the map's new state.
pub record Refines (r : List ℕ × HostHash) (spec : List ℕ × HostMap) : Type 0 where
  pub answer : r.0 ≡ spec.0
  pub table : (b : InAddr) → lookup r.1 b ≡ spec.1 b

-- The node that the table has for an address is the one that the map has.
node-lookup : (a : InAddr) (tab : HostHash) → node a tab (find_node a (tab (hash a))) ≡ lookup tab a
node-lookup a tab = elim (found_cases a (tab (hash a))) [
  | inl (f, p, m) ↦ ground arith
  | inr (i, hr, f, p, m, g) ↦ rw f ground (arith, g, m)
]

learn-Refines :
    (q : Query) (a : InAddr) (tab : HostHash) (h : Host)
    → Refines (learn q a (find_node a (tab (hash a))) tab h) (learn_in_map q a (lookup tab) h)
unfolding learn
learn-Refines q a tab Host.failed = record { answer = refl; table = λ b. refl }
learn-Refines q a tab Host.unknown = record {
  answer = refl;
  table = lookup-store q a _ q.aaddr q.aaddr tab refl;
}
learn-Refines q a tab (Host.named name) = record {
  answer = refl;
  table = lookup-store q a _ name _ tab refl;
}

addr-Refines :
    (q : Query) (a : InAddr) (tab : HostHash)
    → Refines (resolve_addr q a tab) (
        if asks_host q (lookup tab a)
        then learn_in_map q a (lookup tab) q.host
        else (shown q (lookup tab a), lookup tab))
unfolding resolve_addr
addr-Refines q a tab =
    rw (old_node_lem q.fresh a tab, node-lookup a tab)
      (elim (Bool-cases (asks_host q (lookup tab a))) [
        | inl e ↦ rw e (learn-Refines q a tab q.host)
        | inr e ↦ rw e (record { answer = refl; table = λ b. refl })
      ])

-- The table, with its hashes, its lists and its nodes that malloc has left unset, does what the map
-- does, which asks gethostbyaddr and remembers the answer for the address asked for, and only for
-- that one.
pub resolve-Refines :
    (q : Query) (tab : HostHash) → Refines (resolve q tab) (resolve_in_map q (lookup tab))
unfolding resolve
resolve-Refines q tab = elim (Option-cases q.addr) [
  | inl e ↦ rw e (record { answer = refl; table = λ b. refl })
  | inr (a, e) ↦ rw e (elim (Bool-cases q.numeric) [
    | inl n ↦ rw n (record { answer = refl; table = λ b. refl })
    | inr n ↦ rw n (addr-Refines q a tab)
  ])
]
