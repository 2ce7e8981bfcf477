-- ===== src/Client/Resolve.antt =====
-- client/resolve.c: the names of hosts, kept in a hash table.
pub mod Hash
pub mod Table
pub mod Refines
pub mod Cached
pub mod Placed
use diald_top.Base.{
  ℕ, zero, suc, ◌+◌, ◌*◌, Bool, true, false, ◌&&◌, ◌==◌, ltb, if◌then◌else◌, Option, none, some,
  List, [], ◌∷◌, get_elem?, set, take, strneq, strstr, streq, bit_xor, length, codes,
}

-- `struct in_addr`: its four bytes in memory.
pub record InAddr : Type 0 where
  pub c0 : ℕ
  pub c1 : ℕ
  pub c2 : ℕ
  pub c3 : ℕ

-- `!memcmp(&a, &b, sizeof(struct in_addr))`
abbrev pub same_addr : InAddr → InAddr → Bool
same_addr a b = (a.c0 == b.c0) && (a.c1 == b.c1) && (a.c2 == b.c2) && (a.c3 == b.c3)

-- `struct hostrec`; `next` is the order of the list of the bucket.
pub record HostRec : Type 0 where
  pub addr : InAddr
  pub name : List ℕ
  pub trunc : List ℕ
  pub time_resolved : ℕ

-- `hosthash`
abbrev pub HostHash : Type 0
HostHash = ℕ → List HostRec

abbrev pub hashsize : ℕ
hashsize = 65536

abbrev pub hostrec_expire : ℕ
hostrec_expire = 60 * 60 * 24 * 2

abbrev pub max_query_load : ℕ
max_query_load = 200

unfoldable pub hash : InAddr → ℕ
hash a = bit_xor a.c0 a.c2 + bit_xor a.c1 a.c3 * 256

-- The loop of gettab: the index of the first node with this address.
unfoldable pub find_node : InAddr → List HostRec → Option ℕ
find_node addr [] = none
find_node addr (hr ∷ next) =
    let rest = find_node addr next in
    if same_addr addr hr.addr then some 0 else elim rest [ none ↦ none | some i ↦ some (suc i) ]

-- The loop of probetab.
unfoldable pub probe_list : InAddr → List HostRec → Bool
probe_list addr [] = false
probe_list addr (hr ∷ next) =
    let rest = probe_list addr next in if same_addr addr hr.addr then true else rest

unfoldable pub probetab : InAddr → HostHash → Bool
unfolding probe_list
probetab addr tab = probe_list addr (tab (hash addr))

-- `hosthash[h] = list`
abbrev pub put_list : ℕ → List HostRec → HostHash → HostHash
put_list h list tab = λ i. if i == h then list else tab i

-- The index of the node in its bucket. `fresh` is what malloc returns, which nothing has set.
unfoldable pub gettab : HostRec → InAddr → HostHash → ℕ × HostHash
unfolding find_node
gettab fresh addr tab =
    let h = hash addr in
    elim (find_node addr (tab h)) [ some i ↦ (i, tab) | none ↦ (0, put_list h (fresh ∷ tab h) tab) ]

-- `struct hostrec *hr` after the first test: NULL, or the index of the node.
unfoldable pub old_node : HostRec → InAddr → HostHash → Option ℕ × HostHash
unfolding probetab gettab
old_node fresh addr tab =
    if probetab addr tab then (let (i, t) = gettab fresh addr tab in (some i, t)) else (none, tab)

-- The node of an index, which `hr` points to.
abbrev pub node : InAddr → HostHash → Option ℕ → Option HostRec
node addr tab none = none
node addr tab (some i) = get_elem? (tab (hash addr)) i

-- `mydomain` is what getdomainname has written.
unfoldable pub truncate_hostname : (mydomain : List ℕ) → List ℕ → List ℕ
truncate_hostname mydomain hostname = elim (strstr mydomain hostname) [
  | none ↦ hostname
  | some zero ↦ hostname
  | some (suc i) ↦ take i hostname
]

-- What gethostbyaddr answers: a name; HOST_NOT_FOUND or NO_ADDRESS; another failure.
pub data Host : Type 0 where
  named : List ℕ → Host
  unknown : Host
  failed : Host

-- `rxload` and `txload`, which are counts of bytes.
pub record Loads : Type 0 where
  pub rx0 : ℕ
  pub rx1 : ℕ
  pub rx2 : ℕ
  pub tx0 : ℕ
  pub tx1 : ℕ
  pub tx2 : ℕ

-- The argument, what inet_pton makes of it, the globals, and the answers of the system.
pub record Query : Type 0 where
  pub aaddr : List ℕ
  pub addr : Option InAddr
  pub numeric : Bool
  pub trunc_local_hosts : Bool
  pub curr_state : List ℕ
  pub loads : Loads
  pub now : ℕ
  pub mydomain : List ℕ
  pub host : Host
  pub fresh : HostRec

-- `rxload[2]` stands in the second sum too.
abbrev pub is_idle : Loads → Bool
is_idle l = ltb (l.rx0 + l.rx1 + l.rx2) max_query_load && ltb (l.tx0 + l.tx1 + l.rx2) max_query_load

-- `!hr || now - hr->time_resolved > HOSTREC_EXPIRE`
abbrev pub is_old : ℕ → Option HostRec → Bool
is_old now none = true
is_old now (some hr) = ltb (hr.time_resolved + hostrec_expire) now

abbrev pub asks_host : Query → Option HostRec → Bool
asks_host q hr = is_old q.now hr && streq q.curr_state (codes "UP") && is_idle q.loads

-- `if (!hr) hr = gettab(addr);`
unfoldable pub owned : Query → InAddr → Option ℕ → HostHash → ℕ × HostHash
unfolding gettab
owned q addr none tab = gettab q.fresh addr tab
owned q addr (some i) tab = (i, tab)

-- That, and the assignments to the fields.
unfoldable pub store : Query → InAddr → Option ℕ → List ℕ → List ℕ → HostHash → HostHash
unfolding owned
store q addr hr name trunc tab =
    let (i, t) = owned q addr hr tab in
    put_list (hash addr)
      (set (t (hash addr)) i
        (record { addr = addr; name = name; trunc = trunc; time_resolved = q.now }))
      t

abbrev pub shown : Query → Option HostRec → List ℕ
shown q none = q.aaddr
shown q (some hr) = if q.trunc_local_hosts then hr.trunc else hr.name

-- Once gethostbyaddr has answered.
unfoldable pub learn : Query → InAddr → Option ℕ → HostHash → Host → List ℕ × HostHash
unfolding store truncate_hostname
learn q addr hr tab Host.failed = (q.aaddr, tab)
learn q addr hr tab Host.unknown = (q.aaddr, store q addr hr q.aaddr q.aaddr tab)
learn q addr hr tab (Host.named name) =
    let trunc = truncate_hostname q.mydomain name in
    (if q.trunc_local_hosts then trunc else name, store q addr hr name trunc tab)

unfoldable pub resolve_addr : Query → InAddr → HostHash → List ℕ × HostHash
unfolding old_node learn
resolve_addr q addr tab =
    let (hr, t) = old_node q.fresh addr tab in
    if asks_host q (node addr t hr) then learn q addr hr t q.host else (shown q (node addr t hr), t)

unfoldable pub resolve : Query → HostHash → List ℕ × HostHash
unfolding resolve_addr
resolve q tab = elim q.addr [
  | none ↦ (q.aaddr, tab)
  | some addr ↦ if q.numeric then (q.aaddr, tab) else resolve_addr q addr tab
]
