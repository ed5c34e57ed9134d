-- ===== src/Client/Hosts/Cleaned.antt =====
-- Who cleans up the clients of the hosts.
use mathlib.Core.Path.{subst}
use justhttp.Base.{
  ℕ, ◌<◌, ◌≡◌, refl, sym, ap, ◌≢◌, ◌⊎◌, inl, inr, Bool, true, false, none, some, List, [], ◌∷◌,
  ◌++◌, arith, ◌==◌, if◌then◌else◌, Bool-cases, Option-cases, length, All, Bytes, codes, Lacks,
  equal, equal_iff, is_none,
}
use justhttp.Base.Search.{has_prefix, index}
use justhttp.Client.Hosts.{
  Host, Hosts, Client, find_host, remove_unused, clean_hosts, is_tls_of, hosts_of, with_hosts,
  add_missing_port, host_client, client_do, doing, cleaning, Reach, start, after,
}

abbrev default_port : Bool → Bytes
default_port true = codes "443"
default_port false = codes "80"

index-Lacks : (s : Bytes) → Lacks b':' s → index (codes ":") s ≡ none
unfolding index has_prefix
index-Lacks [] h = refl
index-Lacks (c ∷ s) (hc, h) = ground (arith, index-Lacks s h, hc)

index-colon : (p s : Bytes) → is_none (index (codes ":") (p ++ b':' ∷ s)) ≡ false
unfolding index has_prefix
index-colon [] s = refl
index-colon (c ∷ p) s = elim (Option-cases (index (codes ":") (p ++ b':' ∷ s))) [
  | inl nowhere ↦ absurd (ground (arith, index-colon p s, nowhere))
  | inr (i, found) ↦ elim (Bool-cases (b':' == c)) [
    | inl here ↦ rw here refl
    | inr later ↦ rw (later, found) refl
  ]
]

abbrev pub Absent : Bytes → List Host → Type 0
Absent host = All (λ h. equal h.key host ≡ false)

-- No two clients have one key.
abbrev pub IsDistinct : List Host → Type 0
IsDistinct [] = Unit
IsDistinct (h ∷ hs) = Absent h.key hs × IsDistinct hs

find_host-none : (host : Bytes) (hs : List Host) → find_host host hs ≡ none → Absent host hs
unfolding find_host
find_host-none host [] e = tt
find_host-none host (h ∷ hs) e = ground (arith, find_host-none host hs)

remove_unused-All :
    (P : Host → Type 0) (conns_count : Host → ℕ) (hs : List Host)
    → All P hs
    → All P (remove_unused conns_count hs)
unfolding remove_unused
remove_unused-All P conns_count [] v = tt
remove_unused-All P conns_count (h ∷ hs) (vh, v) = elim (Bool-cases (conns_count h == 0)) [
  | inl gone ↦ rw gone (remove_unused-All P conns_count hs v)
  | inr kept ↦ rw kept (vh, remove_unused-All P conns_count hs v)
]

remove_unused-IsDistinct :
    (conns_count : Host → ℕ) (hs : List Host)
    → IsDistinct hs
    → IsDistinct (remove_unused conns_count hs)
unfolding remove_unused
remove_unused-IsDistinct conns_count [] v = tt
remove_unused-IsDistinct conns_count (h ∷ hs) (vh, v) = elim (Bool-cases (conns_count h == 0)) [
  | inl gone ↦ rw gone (remove_unused-IsDistinct conns_count hs v)
  | inr kept ↦ rw kept (
    remove_unused-All (λ g. equal g.key h.key ≡ false) conns_count hs vh,
    remove_unused-IsDistinct conns_count hs v,
  )
]

some-inj : {A : Type 0} (p q : A) → some p ≡ some q → p ≡ q
some-inj p q h = cc

module _ (join_host_port : Bytes → Bytes → Bytes) where
  -- An address that names its port is dialed as it is, and another one with the default port of
  -- the protocol.
  abbrev pub Dials : Bool → Bytes → Bytes → Type 0
  Dials is_tls key addr =
      ((before after : Bytes) → key ≡ before ++ b':' ∷ after → addr ≡ key)
      × (Lacks b':' key → addr ≡ join_host_port key (default_port is_tls))

  -- The client of a key dials the address with its port, by the protocol of the map.
  abbrev pub IsHostOf : Bool → Host → Type 0
  IsHostOf is_tls h = Dials is_tls h.key h.addr × (h.is_tls ≡ is_tls)

  add_missing_port-Dials :
      (is_tls : Bool) (key : Bytes) → Dials is_tls key (add_missing_port join_host_port key is_tls)
  unfolding add_missing_port
  add_missing_port-Dials true key = (
    λ before after e. rw (e, index-colon before after) refl,
    λ lacks. rw (index-Lacks key lacks) refl,
  )
  add_missing_port-Dials false key = (
    λ before after e. rw (e, index-colon before after) refl,
    λ lacks. rw (index-Lacks key lacks) refl,
  )

  pub record IsCleaned (is_tls : Bool) (hs : Hosts) : Type 0 where
    pub hosts : All (IsHostOf is_tls) hs.entries
    pub distinct : IsDistinct hs.entries
    pub cleaner : hs.cleaners ≡ (if length hs.entries == 0 then 0 else 1)

  find_host-some :
      (is_tls : Bool) (host : Bytes) (hs : List Host) (h : Host)
      → All (IsHostOf is_tls) hs
      → find_host host hs ≡ some h
      → IsHostOf is_tls h × (h.key ≡ host)
  unfolding find_host
  find_host-some is_tls host [] h v e = cc
  find_host-some is_tls host (g ∷ hs) h (vg, v) e = elim (Bool-cases (equal g.key host)) [
    | inl here ↦
        let same : g ≡ h = ground (arith, here, e) in
        rw (← same) (vg, (equal_iff g.key host).0 here)
    | inr there ↦ find_host-some is_tls host hs h v (ground (arith, there, e))
  ]

  clean_hosts-IsCleaned :
      (is_tls : Bool) (conns_count : Host → ℕ) (hs : Hosts)
      → 0 < hs.cleaners
      → IsCleaned is_tls hs
      → IsCleaned is_tls (clean_hosts conns_count hs)
  unfolding clean_hosts
  clean_hosts-IsCleaned is_tls conns_count hs runs v =
      let hosts = remove_unused-All (IsHostOf is_tls) conns_count hs.entries v.hosts in
      let distinct = remove_unused-IsDistinct conns_count hs.entries v.distinct in
      elim (Bool-cases (length (remove_unused conns_count hs.entries) == 0)) [
        | inl empty ↦ rw empty (record {
          hosts = hosts;
          distinct = distinct;
          cleaner = ground (arith, empty, v.cleaner, runs);
        })
        | inr left ↦ rw left (record {
          hosts = hosts;
          distinct = distinct;
          cleaner = ground (arith, left, v.cleaner, runs);
        })
      ]

  host_client-IsCleaned :
      (hs : Hosts) (host : Bytes) (is_tls : Bool)
      → IsCleaned is_tls hs
      → IsCleaned is_tls (host_client join_host_port hs host is_tls).0
        × IsHostOf is_tls (host_client join_host_port hs host is_tls).1
        × ((host_client join_host_port hs host is_tls).1.key ≡ host)
  unfolding host_client
  host_client-IsCleaned hs host is_tls v = elim (Option-cases (find_host host hs.entries)) [
    | inr (h, here) ↦
        let (of_host, same) = find_host-some is_tls host hs.entries h v.hosts here in
        rw (host_client, here) (v, of_host, same)
    | inl absent ↦
        rw (host_client, absent)
          (
            record {
              hosts = ((add_missing_port-Dials is_tls host, refl), v.hosts);
              distinct = (find_host-none host hs.entries absent, v.distinct);
              cleaner = ground (arith, v.cleaner);
            },
            (add_missing_port-Dials is_tls host, refl),
            refl,
          )
  ]

  client_do-IsCleaned :
      (c d : Client) (is_tls : Bool) (host : Bytes)
      → IsCleaned true c.ms
      → IsCleaned false c.m
      → d ≡ with_hosts c is_tls (host_client join_host_port (hosts_of c is_tls) host is_tls).0
      → IsCleaned true d.ms × IsCleaned false d.m
  client_do-IsCleaned c d true host vs v e = rw e ((host_client-IsCleaned c.ms host true vs).0, v)
  client_do-IsCleaned c d false host vs v e = rw e (vs, (host_client-IsCleaned c.m host false v).0)

  clean-IsCleaned :
      (c : Client) (is_tls : Bool) (conns_count : Host → ℕ)
      → 0 < (hosts_of c is_tls).cleaners
      → IsCleaned true c.ms
      → IsCleaned false c.m
      → let d = with_hosts c is_tls (clean_hosts conns_count (hosts_of c is_tls)) in
        IsCleaned true d.ms × IsCleaned false d.m
  clean-IsCleaned c true conns_count runs vs v =
      (clean_hosts-IsCleaned true conns_count c.ms runs vs, v)
  clean-IsCleaned c false conns_count runs vs v =
      (vs, clean_hosts-IsCleaned false conns_count c.m runs v)

  -- A call of `client_do` that finds a protocol.
  client_do-inv :
      (c d : Client) (scheme host : Bytes) (h : Host)
      → client_do join_host_port c scheme host ≡ some (d, h)
      → (is_tls : Bool) × (is_tls_of scheme ≡ some is_tls)
        × (d ≡ with_hosts c is_tls (host_client join_host_port (hosts_of c is_tls) host is_tls).0)
        × (h ≡ (host_client join_host_port (hosts_of c is_tls) host is_tls).1)
  unfolding client_do
  client_do-inv c d scheme host h e = elim (Option-cases (is_tls_of scheme)) [
    | inl none_of ↦ absurd (ground (arith, none_of, e))
    | inr (is_tls, scheme_of) ↦
        let same = rw (client_do, scheme_of) at e in
        (
          is_tls,
          scheme_of,
          sym (ap (λ o. o.0) (some-inj _ _ same)),
          sym (ap (λ o. o.1) (some-inj _ _ same)),
        )
  ]

  Reach-both : {c : Client} → Reach join_host_port c → IsCleaned true c.ms × IsCleaned false c.m
  Reach-both start = (
    record { hosts = tt; distinct = tt; cleaner = refl },
    record { hosts = tt; distinct = tt; cleaner = refl },
  )
  Reach-both (after {c} {d} r (doing scheme host h e)) =
      let (is_tls, scheme_of, ed, eh) = client_do-inv c d scheme host h e in
      let (vs, v) = Reach-both r in client_do-IsCleaned c d is_tls host vs v ed
  Reach-both (after {c} {d} r (cleaning is_tls conns_count runs e)) =
      let (vs, v) = Reach-both r in rw e (clean-IsCleaned c is_tls conns_count runs vs v)

-- In every state that the calls of `Do` and the cleaners can reach, a map with clients has exactly
-- one cleaner and an empty one has none, no two clients have one key, and each dials its key, with
-- the port 443 (for HTTPS) or 80 joined to it if the key has no ':'.
pub Reach-IsCleaned :
    (join_host_port : Bytes → Bytes → Bytes) {c : Client}
    → Reach join_host_port c
    → IsCleaned join_host_port true c.ms × IsCleaned join_host_port false c.m
Reach-IsCleaned join_host_port r = Reach-both join_host_port r

hosts_of-IsCleaned :
    (join_host_port : Bytes → Bytes → Bytes) (c : Client) (is_tls : Bool)
    → IsCleaned join_host_port true c.ms × IsCleaned join_host_port false c.m
    → IsCleaned join_host_port is_tls (hosts_of c is_tls)
hosts_of-IsCleaned join_host_port c true v = v.0
hosts_of-IsCleaned join_host_port c false v = v.1

-- The client that a call with a protocol is passed to.
passed_to :
    (join_host_port : Bytes → Bytes → Bytes) {c : Client} (scheme host : Bytes) (is_tls : Bool)
    → is_tls_of scheme ≡ some is_tls
    → Reach join_host_port c
    → (d : Client) × (h : Host) × (client_do join_host_port c scheme host ≡ some (d, h))
      × (h.key ≡ host)
      × (h.is_tls ≡ is_tls)
      × Dials join_host_port is_tls host h.addr
unfolding client_do
passed_to join_host_port {c} scheme host is_tls scheme_of r =
    let v = hosts_of-IsCleaned join_host_port c is_tls (Reach-IsCleaned join_host_port r) in
    let made = host_client join_host_port (hosts_of c is_tls) host is_tls in
    let (kept, of_host, key) =
      host_client-IsCleaned join_host_port (hosts_of c is_tls) host is_tls v in
    (
      with_hosts c is_tls made.0,
      made.1,
      rw (client_do, scheme_of) refl,
      key,
      of_host.1,
      subst (λ k. Dials join_host_port is_tls k made.1.addr) key of_host.0,
    )

-- A call of `Do` with a URI of a reachable client is refused only if the scheme is neither "http"
-- nor "https", and is else passed to the client of the URI's host for this protocol.
pub client_do-host :
    (join_host_port : Bytes → Bytes → Bytes) {c : Client} (scheme host : Bytes)
    → Reach join_host_port c
    → (client_do join_host_port c scheme host ≡ none)
        × (scheme ≢ codes "http")
        × (scheme ≢ codes "https")
      ⊎ ((d : Client) × (h : Host) × (client_do join_host_port c scheme host ≡ some (d, h))
          × (h.key ≡ host)
          × (h.is_tls ≡ equal scheme (codes "https"))
          × Dials join_host_port (equal scheme (codes "https")) host h.addr)
unfolding client_do is_tls_of
client_do-host join_host_port {c} scheme host r = elim (Bool-cases (equal scheme (codes "https"))) [
  | inl https ↦
      rw https (inr (passed_to join_host_port scheme host true (rw (is_tls_of, https) refl) r))
  | inr not_https ↦ elim (Bool-cases (equal scheme (codes "http"))) [
    | inl http ↦
        rw not_https (
          inr (passed_to join_host_port scheme host false (rw (is_tls_of, not_https, http) refl) r))
    | inr other ↦ inl (
      rw (client_do, is_tls_of, not_https, other) refl,
      λ e. ground (arith, other, (equal_iff scheme (codes "http")).1 e),
      λ e. ground (arith, not_https, (equal_iff scheme (codes "https")).1 e),
    )
  ]
]
