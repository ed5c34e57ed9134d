-- ===== src/PerIpConn/System.antt =====
-- The connections of a server with `MaxConnsPerIP`, as steps that goroutines take in any order: the
-- counter is locked for one `Register` or `Unregister` at a time.
use justhttp.Base.{
  ℕ, ◌+◌, ◌-◌, ◌≤◌, ◌<◌, ◌≡◌, refl, Option, none, some, List, [], ◌∷◌, arith, ltb, ◌==◌,
  if◌then◌else◌,
}
use justhttp.Base.Count.{count, remove, count-remove}
use justhttp.PerIpConn.{
  PerIpConnCounter, no_counter, lookup, made-lookup, register, unregister, unregister_lem,
  unregister_total,
}

-- `open` has the address of each `perIPConn` in use, `refused` that of each connection that
-- `wrapPerIPConn` has counted and will refuse, but has not unregistered yet. `unlimited` is the
-- number of connections in use whose peer has no IPv4 address: `getUint32IP` is 0 for them.
pub record Conns : Type 0 where
  pub counter : PerIpConnCounter
  pub opened : List ℕ
  pub refused : List ℕ
  pub unlimited : ℕ

abbrev pub no_conns : Conns
no_conns = record { counter = no_counter; opened = []; refused = []; unlimited = 0 }

-- `wrapPerIPConn` up to the test of the limit; a connection with the address 0 goes on as it is.
unfoldable pub wrap_conn : ℕ → Conns → ℕ → Conns
unfolding register
wrap_conn max s ip =
    let (counter, n) = register s.counter ip in
    if ip == 0
    then record s { unlimited = s.unlimited + 1 }
    else if ltb max n
    then record s { counter = counter; refused = ip ∷ s.refused }
    else record s { counter = counter; opened = ip ∷ s.opened }

-- The rest of `wrapPerIPConn` for a refused connection; `none` is a panic.
unfoldable pub refuse_conn : Conns → ℕ → Option Conns
refuse_conn s ip = elim (unregister s.counter ip) [
  | none ↦ none
  | some counter ↦ some (record s { counter = counter; refused = remove ip s.refused })
]

-- The closing of a connection that is no `perIPConn`.
unfoldable pub close_plain : Conns → Conns
close_plain s = record s { unlimited = s.unlimited - 1 }

-- `perIPConn.Close`; `none` is a panic.
unfoldable pub close_conn : Conns → ℕ → Option Conns
close_conn s ip = elim (unregister s.counter ip) [
  | none ↦ none
  | some counter ↦ some (record s { counter = counter; opened = remove ip s.opened })
]

pub data Step (max : ℕ) (s t : Conns) : Type 0 where
  wrap : (ip : ℕ) → t ≡ wrap_conn max s ip → Step max s t
  refuse : (ip : ℕ) → 0 < count ip s.refused → refuse_conn s ip ≡ some t → Step max s t
  close : (ip : ℕ) → 0 < count ip s.opened → close_conn s ip ≡ some t → Step max s t
  close_unlimited : 0 < s.unlimited → t ≡ close_plain s → Step max s t

pub data Reach (max : ℕ) : Conns → Type 0 where
  start : Reach max no_conns
  next : {s t : Conns} → Reach max s → Step max s t → Reach max t

-- The counter holds the connections of each address, and no address has more than `max` in use.
pub record IsCounted (max : ℕ) (s : Conns) : Type 0 where
  pub counts : (ip : ℕ) → lookup s.counter.m ip ≡ count ip s.opened + count ip s.refused
  pub limit : (ip : ℕ) → count ip s.opened ≤ max
  pub nonzero : (count 0 s.opened ≡ 0) × (count 0 s.refused ≡ 0)

wrap_conn-IsCounted :
    (max : ℕ) (s : Conns) (ip : ℕ) → IsCounted max s → IsCounted max (wrap_conn max s ip)
unfolding wrap_conn
wrap_conn-IsCounted max s ip v = record {
  counts = λ k.
      ground
        (arith, made-lookup s.counter.m ip, made-lookup s.counter.m k, v.counts k, v.counts ip);
  limit = λ k. ground (arith, made-lookup s.counter.m ip, v.counts ip, v.limit k);
  nonzero = ground arith;
}

-- What is left of a step that unregisters a connection.
unregistered :
    (m : Option PerIpConnCounter) {A : Type 0} (f : PerIpConnCounter → A) {t : A}
    → (elim m [ none ↦ none | some c ↦ some (f c) ]) ≡ some t
    → (c : PerIpConnCounter) × (m ≡ some c) × (f c ≡ t)
unregistered none f h = cc
unregistered (some c) f h = (c, refl, cc)

refuse_conn-IsCounted :
    (max : ℕ) (s : Conns) (ip : ℕ) (t : Conns)
    → IsCounted max s
    → 0 < count ip s.refused
    → refuse_conn s ip ≡ some t
    → IsCounted max t
unfolding refuse_conn
refuse_conn-IsCounted max s ip t v pos h =
    let (c, e, et) =
      unregistered (unregister s.counter ip)
        (λ counter. record s { counter = counter; refused = remove ip s.refused }) h in
    let (p, q) = unregister_lem s.counter ip e in
    rw (← et) (record {
      counts = λ k. ground (arith, q k, v.counts k, v.counts ip, count-remove ip k s.refused);
      limit = v.limit;
      nonzero = (v.nonzero.0, ground (arith, v.nonzero, count-remove ip 0 s.refused));
    })

close_conn-IsCounted :
    (max : ℕ) (s : Conns) (ip : ℕ) (t : Conns)
    → IsCounted max s
    → 0 < count ip s.opened
    → close_conn s ip ≡ some t
    → IsCounted max t
unfolding close_conn
close_conn-IsCounted max s ip t v pos h =
    let (c, e, et) =
      unregistered (unregister s.counter ip)
        (λ counter. record s { counter = counter; opened = remove ip s.opened }) h in
    let (p, q) = unregister_lem s.counter ip e in
    rw (← et) (record {
      counts = λ k. ground (arith, q k, v.counts k, v.counts ip, count-remove ip k s.opened);
      limit = λ k. omega (arith, count-remove ip k s.opened, v.limit k);
      nonzero = (ground (arith, v.nonzero, count-remove ip 0 s.opened), v.nonzero.1);
    })

-- In every state that the goroutines can reach, the counter of an address is the number of its
-- `perIPConn`s in use or about to be refused, at most `MaxConnsPerIP` of them are in use, and none
-- has the address 0: connections whose peer has no IPv4 address, which `unlimited` counts, are
-- neither counted by the server nor limited.
pub Reach-IsCounted : {max : ℕ} {s : Conns} → Reach max s → IsCounted max s
unfolding close_plain
Reach-IsCounted start = record {
  counts = λ ip. refl;
  limit = λ ip. omega arith;
  nonzero = (refl, refl);
}
Reach-IsCounted (next {s} r (wrap ip e)) = rw e (wrap_conn-IsCounted _ s ip (Reach-IsCounted r))
Reach-IsCounted (next {s} {t} r (refuse ip pos e)) =
    refuse_conn-IsCounted _ s ip t (Reach-IsCounted r) pos e
Reach-IsCounted (next {s} {t} r (close ip pos e)) =
    close_conn-IsCounted _ s ip t (Reach-IsCounted r) pos e
Reach-IsCounted (next {s} {t} r (close_unlimited pos e)) =
    let v = Reach-IsCounted r in
    rw e (record { counts = v.counts; limit = v.limit; nonzero = v.nonzero })

-- In every state that the goroutines can reach, a connection in use can be closed and a refused one
-- unregistered: neither panics.
pub Reach-no_panic :
    {max : ℕ} {s : Conns} (ip : ℕ)
    → Reach max s
    → (0 < count ip s.opened → (t : Conns) × (close_conn s ip ≡ some t))
      × (0 < count ip s.refused → (t : Conns) × (refuse_conn s ip ≡ some t))
unfolding close_conn refuse_conn
Reach-no_panic {s} ip r =
    let v = Reach-IsCounted r in
    (
      λ pos.
          let (c, e) = unregister_total s.counter ip (omega (arith, v.counts ip)) in
          (record s { counter = c; opened = remove ip s.opened }, rw (e, close_conn)),
      λ pos.
          let (c, e) = unregister_total s.counter ip (omega (arith, v.counts ip)) in
          (record s { counter = c; refused = remove ip s.refused }, rw (e, refuse_conn)),
    )
