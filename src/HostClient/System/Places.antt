-- ===== src/HostClient/System/Places.antt =====
-- The places of the connections that the pool counts, and the steps that move one by a delivery.
use justhttp.Base.{
  ℕ, suc, ◌+◌, ◌≤◌, ◌≡◌, refl, ap, inl, inr, Bool, false, Option, none, some, List, [], ◌∷◌, ◌++◌,
  arith, if◌then◌else◌, Option-cases, length, get_elem?, length-append, All,
}
use justhttp.HostClient.Queue.{len}
use justhttp.HostClient.Queue.Refines.{pop_waiting-waiting}
use justhttp.HostClient.Want.{
  ClientConn, ClientError, WantConn, connected, broken, try_deliver, waiting,
}
use justhttp.HostClient.Want.Owed.{
  owed, IsWant, owed-append, All-append_new, owed-put_want, All-put_want, IsWant-get_elem?,
  waiting-some, try_deliver-owes, IsWant-broken,
}
use justhttp.HostClient.Pool.{
  HostClient, limit_of, split_last_conn, acquire_conn, queue_for_idle, next_waiting, deliver,
}
use justhttp.HostClient.System.{Clients, acquired, queued, dialed_for, change_want, dial_for_failed}

abbrev pub under_way : Option (ℕ × ClientConn) → ℕ
under_way none = 0
under_way (some h) = 1

-- The places of a connection, and the limit on them.
pub record IsPooled (limit : ℕ) (s : Clients) : Type 0 where
  pub fixed : limit_of s.client ≤ limit
  pub counted :
      s.client.conns_count
      ≡ length s.client.conns
        + owed s.client.wants
        + s.held
        + s.dialing
        + s.ending
        + length s.dialing_for
        + under_way s.handing
  pub within_limit : s.client.conns_count ≤ limit
  pub settled : All IsWant s.client.wants

split_last_conn-none : (conns : List ClientConn) → split_last_conn conns ≡ none → conns ≡ []
unfolding split_last_conn
split_last_conn-none [] h = refl
split_last_conn-none (cc ∷ conns) h = absurd (ground (arith, h))

length-split_last_conn :
    (conns front : List ClientConn) (last : ClientConn)
    → split_last_conn conns ≡ some (front, last)
    → length conns ≡ suc (length front)
unfolding split_last_conn
length-split_last_conn [] front last h = absurd (ground (arith, h))
length-split_last_conn (w ∷ ws) front last h = elim (Option-cases (split_last_conn ws)) [
  | inl empty ↦ ground (arith, empty, h, split_last_conn-none ws empty)
  | inr ((f, l), some_front) ↦
      ground (arith, some_front, h, length-split_last_conn ws f l some_front)
]

pub acquired-IsPooled :
    {limit : ℕ} (s : Clients) (close : Bool) → IsPooled limit s → IsPooled limit (acquired s close)
unfolding acquired acquire_conn limit_of
acquired-IsPooled s close v = elim (Option-cases (split_last_conn s.client.conns)) [
  | inl empty ↦ record {
    fixed = ground (arith, empty, v.fixed);
    counted = ground (arith, empty, v.counted);
    within_limit = ground (arith, empty, v.within_limit, v.fixed);
    settled = ground (arith, empty, v.settled);
  }
  | inr ((front, last), full) ↦ record {
    fixed = ground (arith, full, v.fixed);
    counted =
        ground (arith, full, v.counted, length-split_last_conn s.client.conns front last full);
    within_limit = ground (arith, full, v.within_limit);
    settled = ground (arith, full, v.settled);
  }
]

pub queued-IsPooled : {limit : ℕ} (s : Clients) → IsPooled limit s → IsPooled limit (queued s)
unfolding queued queue_for_idle limit_of
queued-IsPooled s v = record {
  fixed = v.fixed;
  counted = omega (arith, v.counted, owed-append s.client.wants);
  within_limit = v.within_limit;
  settled = All-append_new s.client.wants v.settled;
}

-- The first waiting has neither a connection nor an error yet.
pub next_waiting-open :
    (c : HostClient) (i : ℕ)
    → (next_waiting c).1 ≡ some i
    → (w : WantConn) × (get_elem? c.wants i ≡ some w) × (w.ready ≡ false)
unfolding next_waiting
next_waiting-open c i h =
    waiting-some c.wants i
      (pop_waiting-waiting (len c.conns_wait) (waiting c.wants) c.conns_wait i h)

-- What a delivery does to the places of connections.
pub deliver_counts :
    (c : HostClient) (i : ℕ) (cc : ClientConn)
    → All IsWant c.wants
    → (owed (deliver c i cc).0.wants ≡ owed c.wants + (if (deliver c i cc).1 then 1 else 0))
      × All IsWant (deliver c i cc).0.wants
      × (deliver c i cc).0 ≡ record c { wants = (deliver c i cc).0.wants }
unfolding deliver
deliver_counts c i cc a = elim (Option-cases (get_elem? c.wants i)) [
  | inl gone ↦ rw (deliver, gone) (omega arith, a, refl)
  | inr (w, found) ↦
      let tried = try_deliver w (connected cc) in
      let (owing, kept) = try_deliver-owes w cc (IsWant-get_elem? c.wants i w a found) in
      rw (deliver, found)
        (
          omega (arith, owing, owed-put_want c.wants i w tried.0 found),
          All-put_want c.wants i tried.0 a kept,
          refl,
        )
]

pub dialed_for-IsPooled :
    {limit : ℕ} (s : Clients) (front back : List ℕ) (i : ℕ) (cc : ClientConn)
    → s.dialing_for ≡ front ++ i ∷ back
    → IsPooled limit s
    → IsPooled limit (dialed_for s i cc (front ++ back))
unfolding dialed_for limit_of
dialed_for-IsPooled s front back i cc e v =
    let (owing, kept, same) = deliver_counts s.client i cc v.settled in
    record {
      fixed = omega (arith, ap limit_of same, v.fixed);
      counted = ground (
        arith,
        v.counted,
        owing,
        ap (λ c. c.conns_count) same,
        ap (λ c. length c.conns) same,
        ap length e,
        length-append front (i ∷ back),
        length-append front back,
      );
      within_limit = omega (arith, v.within_limit, ap (λ c. c.conns_count) same);
      settled = kept;
    }

pub dial_for_failed-IsPooled :
    {limit : ℕ} (s : Clients) (front back : List ℕ) (i : ℕ) (w : WantConn) (e : ClientError)
    → s.dialing_for ≡ front ++ i ∷ back
    → get_elem? s.client.wants i ≡ some w
    → IsPooled limit s
    → IsPooled limit (dial_for_failed s i w e (front ++ back))
unfolding dial_for_failed change_want limit_of
dial_for_failed-IsPooled s front back i w e here found v =
    let (owing, kept) = IsWant-broken w e (IsWant-get_elem? s.client.wants i w v.settled found) in
    record {
      fixed = v.fixed;
      counted = omega (
        arith,
        v.counted,
        owing,
        owed-put_want s.client.wants i w (try_deliver w (broken e)).0 found,
        length-append front (i ∷ back),
        length-append front back,
        ap length here,
      );
      within_limit = v.within_limit;
      settled = All-put_want s.client.wants i (try_deliver w (broken e)).0 v.settled kept;
    }
