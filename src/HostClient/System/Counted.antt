-- ===== src/HostClient/System/Counted.antt =====
-- Every connection that the pool counts is in one place.
use justhttp.Base.{
  ℕ, ◌+◌, ◌≤◌, ◌<◌, ◌≡◌, refl, ap, inl, inr, Bool, true, none, some, [], ◌∷◌, arith, ◌==◌,
  Bool-cases, Option-cases, length, get_elem?, take, drop, length-append, take-append-drop,
}
use justhttp.HostClient.Want.{ClientConn, ClientError, WantConn, cancel, collect}
use justhttp.HostClient.Want.Owed.{
  owed-put_want, All-put_want, IsWant-get_elem?, IsWant-cancel, IsWant-collect,
}
use justhttp.HostClient.Pool.{
  limit_of, next_waiting, dec_conns_count, append_conn, release_conn, hand_over, deliver,
  set_max_conns, take_idle, count_old, take_old, stop_cleaner,
}
use justhttp.HostClient.System.{
  Clients, new_clients, dialed, dial_failed, change_want, released, handed, closing, count_dropped,
  collected, cancelled, idle_closed, cleaned, Step, acquiring, queueing, dialing_done,
  dialing_failed, dialing_for_done, dialing_for_failed, releasing, handing_over, limited,
  closing_one, dropping, collecting, giving_up, closing_idle, cleaning, cleaner_stopping, Reach,
  start, after,
}
use justhttp.HostClient.System.Places.{
  IsPooled, acquired-IsPooled, queued-IsPooled, deliver_counts, under_way, dialed_for-IsPooled,
  dial_for_failed-IsPooled,
}

released-IsPooled :
    {limit : ℕ} (s : Clients) (cc : ClientConn) (now : ℕ)
    → 0 < s.held
    → s.handing ≡ none
    → IsPooled limit s
    → IsPooled limit (released s cc now)
unfolding released release_conn append_conn limit_of
released-IsPooled s cc now pos free v =
    let used = record cc { last_use_time = now } in
    elim (Bool-cases s.client.waits) [
      | inr never ↦ record {
        fixed = ground (arith, never, v.fixed);
        counted = ground (arith, never, v.counted, free, length-append s.client.conns (used ∷ []));
        within_limit = ground (arith, never, v.within_limit);
        settled = ground (arith, never, v.settled);
      }
      | inl always ↦ elim (Option-cases (next_waiting s.client).1) [
        | inl nobody ↦ record {
          fixed = ground (arith, always, nobody, v.fixed);
          counted =
              ground
                (arith, always, nobody, v.counted, free, length-append s.client.conns (used ∷ []));
          within_limit = ground (arith, always, nobody, v.within_limit);
          settled = ground (arith, always, nobody, v.settled);
        }
        | inr (i, first) ↦ record {
          fixed = ground (arith, always, first, v.fixed);
          counted = ground (arith, always, first, v.counted, free);
          within_limit = ground (arith, always, first, v.within_limit);
          settled = ground (arith, always, first, v.settled);
        }
      ]
    ]

-- The connection is delivered, or idle where a `cancel` came first.
handed-IsPooled :
    {limit : ℕ} (s : Clients) (i : ℕ) (cc : ClientConn)
    → s.handing ≡ some (i, cc)
    → IsPooled limit s
    → IsPooled limit (handed s i cc)
unfolding handed hand_over append_conn limit_of
handed-IsPooled s i cc busy v =
    let (owing, kept, same) = deliver_counts s.client i cc v.settled in
    let counts = ap (λ c. c.conns_count) same in
    let conns = ap (λ c. c.conns) same in
    let limits = ap (λ c. c.max_conns) same in
    let way : under_way s.handing ≡ 1 = ap under_way busy in
    elim (Bool-cases (deliver s.client i cc).1) [
      | inl taken ↦ rw taken (record {
        fixed = rw limits v.fixed;
        counted = ground (arith, taken, v.counted, way, owing, counts, ap length conns);
        within_limit = omega (arith, v.within_limit, counts);
        settled = kept;
      })
      | inr refused ↦ rw refused (record {
        fixed = rw limits v.fixed;
        counted = ground (
          arith,
          refused,
          v.counted,
          way,
          owing,
          counts,
          ap length conns,
          length-append (deliver s.client i cc).0.conns (cc ∷ []),
        );
        within_limit = omega (arith, v.within_limit, counts);
        settled = kept;
      })
    ]

count_dropped-IsPooled :
    {limit : ℕ} (s : Clients) → 0 < s.ending → IsPooled limit s → IsPooled limit (count_dropped s)
unfolding count_dropped dec_conns_count limit_of
count_dropped-IsPooled s pos v = elim (Bool-cases s.client.waits) [
  | inr never ↦ record {
    fixed = ground (arith, never, v.fixed);
    counted = ground (arith, never, v.counted);
    within_limit = ground (arith, never, v.within_limit);
    settled = ground (arith, never, v.settled);
  }
  | inl always ↦ elim (Option-cases (next_waiting s.client).1) [
    | inl nobody ↦ record {
      fixed = ground (arith, always, nobody, v.fixed);
      counted = ground (arith, always, nobody, v.counted);
      within_limit = ground (arith, always, nobody, v.within_limit);
      settled = ground (arith, always, nobody, v.settled);
    }
    | inr (i, first) ↦ record {
      fixed = ground (arith, always, first, v.fixed);
      counted = ground (arith, always, first, v.counted, length-append s.dialing_for (i ∷ []));
      within_limit = ground (arith, always, first, v.within_limit);
      settled = ground (arith, always, first, v.settled);
    }
  ]
]

collected-IsPooled :
    {limit : ℕ} (s : Clients) (i : ℕ) (w : WantConn)
    → get_elem? s.client.wants i ≡ some w
    → w.pending ≡ true
    → w.ready ≡ true
    → IsPooled limit s
    → IsPooled limit (collected s i w)
unfolding collected change_want collect limit_of
collected-IsPooled s i w found pending ready v = record {
  fixed = v.fixed;
  counted = ground (arith, v.counted, pending, owed-put_want s.client.wants i w (collect w) found);
  within_limit = v.within_limit;
  settled =
      All-put_want s.client.wants i (collect w) v.settled
        (IsWant-collect w ready (IsWant-get_elem? s.client.wants i w v.settled found));
}

cancelled-IsPooled :
    {limit : ℕ} (s : Clients) (i : ℕ) (w : WantConn) (e : ClientError)
    → get_elem? s.client.wants i ≡ some w
    → w.pending ≡ true
    → IsPooled limit s
    → IsPooled limit (cancelled s i w e)
unfolding cancelled change_want cancel limit_of
cancelled-IsPooled s i w e found pending v = record {
  fixed = v.fixed;
  counted =
      ground (arith, v.counted, pending, owed-put_want s.client.wants i w (cancel w e).0 found);
  within_limit = v.within_limit;
  settled =
      All-put_want s.client.wants i (cancel w e).0 v.settled
        (IsWant-cancel w e (IsWant-get_elem? s.client.wants i w v.settled found));
}

cleaned-IsPooled :
    {limit : ℕ} (s : Clients) (max_idle now : ℕ)
    → IsPooled limit s
    → IsPooled limit (cleaned s max_idle now)
unfolding cleaned take_old limit_of
cleaned-IsPooled s max_idle now v =
    let n = count_old max_idle now s.client.conns in
    record {
      fixed = v.fixed;
      counted = omega (
        arith,
        v.counted,
        ap length (take-append-drop n s.client.conns),
        length-append (take n s.client.conns) (drop n s.client.conns),
      );
      within_limit = v.within_limit;
      settled = v.settled;
    }

stopping-IsPooled :
    {limit : ℕ} (s : Clients)
    → IsPooled limit s
    → IsPooled limit (record s { client = (stop_cleaner s.client).0 })
unfolding stop_cleaner limit_of
stopping-IsPooled s v = elim (Bool-cases (s.client.conns_count == 0)) [
  | inl empty ↦ record {
    fixed = ground (arith, empty, v.fixed);
    counted = ground (arith, empty, v.counted);
    within_limit = ground (arith, empty, v.within_limit);
    settled = ground (arith, empty, v.settled);
  }
  | inr more ↦ rw (stop_cleaner, more) v
]

moved-IsPooled :
    {limit : ℕ} (s t : Clients)
    → t.client ≡ s.client
    → t.held + t.dialing + t.ending ≡ s.held + s.dialing + s.ending
    → t.dialing_for ≡ s.dialing_for
    → t.handing ≡ s.handing
    → IsPooled limit s
    → IsPooled limit t
moved-IsPooled s t same sum others hands v = record {
  fixed = rw same v.fixed;
  counted = rw (same, others, hands) (omega (arith, v.counted, sum));
  within_limit = rw same v.within_limit;
  settled = rw same v.settled;
}

pub Step-IsPooled : {limit : ℕ} (s t : Clients) → Step s t → IsPooled limit s → IsPooled limit t
unfolding dialed dial_failed closing idle_closed take_idle limit_of
Step-IsPooled s t (acquiring close free e) v = rw e (acquired-IsPooled s close v)
Step-IsPooled s t (queueing pos free e) v = rw e (queued-IsPooled s v)
Step-IsPooled s t (dialing_done pos e) v =
    rw e (moved-IsPooled s (dialed s) refl (omega arith) refl refl v)
Step-IsPooled s t (dialing_failed pos e) v =
    rw e (moved-IsPooled s (dial_failed s) refl (omega arith) refl refl v)
Step-IsPooled s t (dialing_for_done front back i cc here e) v =
    rw e (dialed_for-IsPooled s front back i cc here v)
Step-IsPooled s t (dialing_for_failed front back i w er here found e) v =
    rw e (dial_for_failed-IsPooled s front back i w er here found v)
Step-IsPooled s t (releasing cc now pos free e) v = rw e (released-IsPooled s cc now pos free v)
Step-IsPooled s t (handing_over i cc busy e) v = rw e (handed-IsPooled s i cc busy v)
Step-IsPooled s t (closing_one pos e) v =
    rw e (moved-IsPooled s (closing s) refl (omega arith) refl refl v)
Step-IsPooled s t (dropping pos free e) v = rw e (count_dropped-IsPooled s pos v)
Step-IsPooled s t (collecting i w found pending ready e) v =
    rw e (collected-IsPooled s i w found pending ready v)
Step-IsPooled s t (giving_up i w er found pending e) v =
    rw e (cancelled-IsPooled s i w er found pending v)
Step-IsPooled s t (closing_idle free e) v = rw e (record {
  fixed = v.fixed;
  counted = omega (arith, v.counted);
  within_limit = v.within_limit;
  settled = v.settled;
})
Step-IsPooled s t (cleaning max_idle now free e) v = rw e (cleaned-IsPooled s max_idle now v)
Step-IsPooled s t (cleaner_stopping free e) v = rw e (stopping-IsPooled s v)

limited-IsPooled :
    {limit : ℕ} (s : Clients) (n : ℕ)
    → limit_of (set_max_conns s.client n) ≤ limit
    → IsPooled limit s
    → IsPooled limit (record s { client = set_max_conns s.client n })
unfolding set_max_conns limit_of
limited-IsPooled s n le v = record {
  fixed = le;
  counted = v.counted;
  within_limit = v.within_limit;
  settled = v.settled;
}

-- In every state that the goroutines can reach, while `SetMaxConns` sets no limit above the first
-- one, `connsCount` is the number of connections that are idle, in the hands of a goroutine, between
-- `waiting` and `tryDeliver`, delivered, being dialed or on their way out, it is at most the first
-- limit, and the channel of a `wantConn` is closed exactly if it has a connection or an error.
pub Reach-IsPooled :
    {max : ℕ} {waits : Bool} {s : Clients}
    → Reach max waits s
    → IsPooled (limit_of (new_clients max waits).client) s
unfolding limit_of
Reach-IsPooled start = record {
  fixed = omega arith;
  counted = omega arith;
  within_limit = omega arith;
  settled = tt;
}
Reach-IsPooled (after {s} {t} r step) = Step-IsPooled s t step (Reach-IsPooled r)
Reach-IsPooled (limited {s} n r free le) = limited-IsPooled s n le (Reach-IsPooled r)
