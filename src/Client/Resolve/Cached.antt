-- ===== src/Client/Resolve/Cached.antt =====
-- How long resolve keeps an answer of gethostbyaddr.
use diald_top.Base.{
  ℕ, ◌+◌, ◌≤◌, ◌≡◌, refl, ◌∙◌, ltb, true, false, arith, if◌then◌else◌, some, List, [], ◌∷◌, All, ap,
  sym, inl, inr, ◌⊎◌, Bool-cases, Option-cases,
}
use diald_top.Client.Resolve.{
  InAddr, same_addr, HostRec, HostHash, Host, Query, asks_host, truncate_hostname, resolve,
  hostrec_expire,
}
use diald_top.Client.Resolve.Table.{lookup, same_addr_refl, same_addr_sound}
use diald_top.Client.Resolve.Refines.{HostMap, learn_in_map, resolve_in_map, resolve-Refines}

-- What resolve then knows of the address.
abbrev known : Query → InAddr → List ℕ → HostRec
known q a name = record {
  addr = a;
  name = name;
  trunc = truncate_hostname q.mydomain name;
  time_resolved = q.now;
}

learns :
    (q : Query) (a : InAddr) (name : List ℕ) (m : HostMap)
    → q.addr ≡ some a
    → q.numeric ≡ false
    → q.host ≡ Host.named name
    → asks_host q (m a) ≡ true
    → (resolve_in_map q m).1 a ≡ some (known q a name)
learns q a name m e n h asks = rw (e, n, asks, h, same_addr_refl a) refl

shows :
    (q : Query) (a : InAddr) (hr : HostRec) (m : HostMap)
    → q.addr ≡ some a
    → q.numeric ≡ false
    → m a ≡ some hr
    → q.now ≤ hr.time_resolved + hostrec_expire
    → (resolve_in_map q m).0 ≡ (if q.trunc_local_hosts then hr.trunc else hr.name)
shows q a hr m e n known time =
    let young : ltb (hr.time_resolved + hostrec_expire) q.now ≡ false = ground arith in
    rw (e, n, known, young) refl

-- A call does not forget what is known of an address, until that is two days old.
keeps :
    (q : Query) (a : InAddr) (hr : HostRec) (tab : HostHash)
    → lookup tab a ≡ some hr
    → q.now ≤ hr.time_resolved + hostrec_expire
    → lookup (resolve q tab).1 a ≡ some hr
keeps q a hr tab known time = (resolve-Refines q tab).table a ∙ elim (Option-cases q.addr) [
  | inl e ↦ rw e known
  | inr (b, e) ↦ rw e (elim (Bool-cases q.numeric) [
    | inl n ↦ rw n known
    | inr n ↦ rw n (elim (Bool-cases (asks_host q (lookup tab b))) [
      | inr quiet ↦ rw quiet known
      | inl asks ↦ rw asks (of_other b asks (Bool-cases (same_addr a b)))
    ])
  ])
]
  where
    of_other :
        (b : InAddr)
        → asks_host q (lookup tab b) ≡ true
        → (same_addr a b ≡ true) ⊎ (same_addr a b ≡ false)
        → (learn_in_map q b (lookup tab) q.host).1 a ≡ some hr
    of_other b asks (inl same) =
        let e = sym (same_addr_sound a b same) in
        let young : ltb (hr.time_resolved + hostrec_expire) q.now ≡ false = ground arith in
        let still : lookup tab b ≡ some hr = ap (lookup tab) e ∙ known in
        let quiet : asks_host q (lookup tab b) ≡ false = rw (still, young) refl in
        absurd (cc (quiet, asks))
    of_other b asks (inr other) = by_host q.host
      where
        by_host : (h : Host) → (learn_in_map q b (lookup tab) h).1 a ≡ some hr
        by_host Host.failed = known
        by_host Host.unknown = rw other known
        by_host (Host.named name) = rw other known

-- The table after these calls.
abbrev pub resolve_all : List Query → HostHash → HostHash
resolve_all [] tab = tab
resolve_all (q ∷ qs) tab = resolve_all qs (resolve q tab).1

all_keep :
    (qs : List Query) (a : InAddr) (hr : HostRec) (tab : HostHash)
    → lookup tab a ≡ some hr
    → All (λ q. q.now ≤ hr.time_resolved + hostrec_expire) qs
    → lookup (resolve_all qs tab) a ≡ some hr
all_keep [] a hr tab known times = known
all_keep (q ∷ qs) a hr tab known times =
    all_keep qs a hr (resolve q tab).1 (keeps q a hr tab known times.0) times.1

-- When resolve has asked gethostbyaddr about an address and has a name for it, then for two days, while
-- addresses are not shown as numbers, every call for that address shows that name, cut or not as the
-- option then says, whatever gethostbyaddr would say by then, whether or not the link is up, and
-- whatever other calls there have been in these days.
pub resolve-resolve :
    (q q' : Query) (between : List Query) (a : InAddr) (name : List ℕ) (tab : HostHash)
    → q.addr ≡ some a
    → q'.addr ≡ some a
    → q.numeric ≡ false
    → q'.numeric ≡ false
    → q.host ≡ Host.named name
    → asks_host q (lookup tab a) ≡ true
    → All (λ b. b.now ≤ q.now + hostrec_expire) between
    → q'.now ≤ q.now + hostrec_expire
    → (resolve q' (resolve_all between (resolve q tab).1)).0
      ≡ (if q'.trunc_local_hosts then truncate_hostname q.mydomain name else name)
resolve-resolve q q' between a name tab e e' n n' h asks times time =
    let first : lookup (resolve q tab).1 a ≡ some (known q a name) =
      (resolve-Refines q tab).table a ∙ learns q a name (lookup tab) e n h asks in
    (resolve-Refines q' (resolve_all between (resolve q tab).1)).answer
    ∙ shows q' a (known q a name) _ e' n' (all_keep between a _ _ first times) time
