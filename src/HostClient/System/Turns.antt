-- ===== src/HostClient/System/Turns.antt =====
-- Who gets a connection that is released, and who a place that is given up.
use justhttp.Base.{
  ℕ, ◌-◌, ◌<◌, ◌≡◌, refl, ap, ◌∙◌, inl, inr, Bool, true, false, none, some, List, [], ◌∷◌, ◌++◌,
  arith, if◌then◌else◌, Bool-cases, Option-cases, get_elem?, All, is_none,
}
use justhttp.HostClient.Queue.{len}
use justhttp.HostClient.Queue.Refines.{
  contents, pop_list, drop_until, pop_waiting-contents, length-contents,
}
use justhttp.HostClient.Want.{ClientConn, WantConn, waiting, put_want, is_settled, try_deliver}
use justhttp.HostClient.Want.Owed.{waiting-some, IsWant, IsWant-get_elem?, try_deliver-open}
use justhttp.HostClient.Pool.{
  HostClient, next_waiting, dec_conns_count, deliver, release_conn, hand_over, append_conn,
}
use justhttp.HostClient.System.{Clients, Reach, after, releasing, released, handed}
use justhttp.HostClient.System.Drain.{Leads, here, further, put_want_same}
use justhttp.HostClient.System.Counted.{Reach-IsPooled}

-- Those in the queue, from the first that waits still.
abbrev pub in_line : HostClient → List ℕ
in_line c = drop_until (waiting c.wants) (contents c.conns_wait)

next_waiting-in_line :
    (c : HostClient)
    → (contents (next_waiting c).0 ≡ (pop_list (in_line c)).0)
      × ((next_waiting c).1 ≡ (pop_list (in_line c)).1)
unfolding next_waiting
next_waiting-in_line c =
    pop_waiting-contents (len c.conns_wait) (waiting c.wants) c.conns_wait (contents c.conns_wait)
      refl (length-contents c.conns_wait)

-- What becomes of a connection on its way to a `wantConn`: that one gets it and its channel is
-- closed, if it waits still, and else the connection is idle.
pub record HandedTo (i : ℕ) (cc : ClientConn) (c d : HostClient) : Type 0 where
  pub taken :
      (w : WantConn)
      → get_elem? c.wants i ≡ some w
      → w.ready ≡ false
      → (d.wants ≡ put_want c.wants i (record w { ready = true; conn = some cc }))
        × (d.conns ≡ c.conns)
  pub refused : waiting c.wants i ≡ false → (d.wants ≡ c.wants) × (d.conns ≡ c.conns ++ cc ∷ [])
  pub rest : (d.conns_wait ≡ c.conns_wait) × (d.conns_count ≡ c.conns_count)

hand_over-taken :
    (c : HostClient) (i : ℕ) (cc : ClientConn) (w : WantConn)
    → All IsWant c.wants
    → get_elem? c.wants i ≡ some w
    → w.ready ≡ false
    → hand_over c i cc
      ≡ record c { wants = put_want c.wants i (record w { ready = true; conn = some cc }) }
unfolding hand_over deliver
hand_over-taken c i cc w a found open_want =
    let (given, owing, kept) =
      try_deliver-open w cc (IsWant-get_elem? c.wants i w a found) open_want in
    ground (arith, found, given)

hand_over-refused :
    (c : HostClient) (i : ℕ) (cc : ClientConn)
    → All IsWant c.wants
    → waiting c.wants i ≡ false
    → hand_over c i cc ≡ append_conn c cc
unfolding hand_over deliver waiting try_deliver
hand_over-refused c i cc a over = elim (Option-cases (get_elem? c.wants i)) [
  | inl gone ↦ rw (hand_over, deliver, gone) refl
  | inr (w, found) ↦
      let v = IsWant-get_elem? c.wants i w a found in
      let ready : w.ready ≡ true = ground (arith, found, over) in
      let settled : is_settled w ≡ true = ground (arith, v.closes, ready) in
      rw (hand_over, deliver, found, try_deliver, settled)
        (rw (put_want_same c.wants i w found) refl)
]

hand_over-HandedTo :
    (c : HostClient) (i : ℕ) (cc : ClientConn)
    → All IsWant c.wants
    → HandedTo i cc c (hand_over c i cc)
unfolding append_conn waiting
hand_over-HandedTo c i cc a = elim (Bool-cases (waiting c.wants i)) [
  | inr over ↦
      let e = hand_over-refused c i cc a over in
      record {
        taken = λ w found open_want. absurd (still over w found open_want);
        refused = λ h. (ap (λ d. d.wants) e, ap (λ d. d.conns) e);
        rest = (ap (λ d. d.conns_wait) e, ap (λ d. d.conns_count) e);
      }
  | inl open_one ↦
      let (v, found, open_want) = waiting-some c.wants i open_one in
      let e = hand_over-taken c i cc v a found open_want in
      record {
        taken = λ w here ready.
            let t = hand_over-taken c i cc w a here ready in
            (ap (λ d. d.wants) t, ap (λ d. d.conns) t);
        refused = λ h. absurd (ground (arith, h, open_one));
        rest = (ap (λ d. d.conns_wait) e, ap (λ d. d.conns_count) e);
      }
]
  where
    still :
        waiting c.wants i ≡ false
        → (w : WantConn) → get_elem? c.wants i ≡ some w
        → w.ready ≡ false
        → ⊥
    still over w found open_want = ground (arith, over, found, open_want)

Leads-Reach :
    {max : ℕ} {waits : Bool} {s t : Clients} → Reach max waits s → Leads s t → Reach max waits t
Leads-Reach r here = r
Leads-Reach r (further step more) = Leads-Reach (after r step) more

-- In a reachable state of a pool that waits, while nobody holds `connsLock`, `releaseConn` takes from
-- the queue the first that is waiting still, and those before it, and nothing is idle yet. When
-- `tryDeliver` comes, behind whatever steps of others, that one gets the connection if it waits
-- still, and if it was cancelled in between the connection is idle, last of all.
pub release_conn_turn :
    {max : ℕ} {waits : Bool} {s t : Clients} (cc : ClientConn) (now i : ℕ) (others : List ℕ)
    → Reach max waits s
    → 0 < s.held
    → s.handing ≡ none
    → s.client.waits ≡ true
    → in_line s.client ≡ i ∷ others
    → Leads (released s cc now) t
    → t.handing ≡ some (i, record cc { last_use_time = now })
    → ((released s cc now).handing ≡ some (i, record cc { last_use_time = now }))
      × (contents (released s cc now).client.conns_wait ≡ others)
      × ((released s cc now).client.conns ≡ s.client.conns)
      × HandedTo i
          (record cc { last_use_time = now })
          t.client
          (handed t i (record cc { last_use_time = now })).client
unfolding released release_conn handed
release_conn_turn {s = s} {t = t} cc now i others r pos free waits line leads locked =
    let used = record cc { last_use_time = now } in
    let (rest, first) = next_waiting-in_line s.client in
    let popped = first ∙ ap (λ l. (pop_list l).1) line in
    let left = rest ∙ ap (λ l. (pop_list l).0) line in
    let v = Reach-IsPooled (Leads-Reach (after r (releasing cc now pos free refl)) leads) in
    (
      ground (arith, waits, popped),
      rw (waits, popped) left,
      ground (arith, waits, popped),
      hand_over-HandedTo t.client i used v.settled,
    )

-- `decConnsCount` of a pool that waits starts to dial for the first in the queue that is waiting
-- still, whose place it keeps counted; if none is, the count goes down by one and the queue is empty.
pub dec_conns_count_turn :
    (c : HostClient)
    → c.waits ≡ true
    → ((dec_conns_count c).1 ≡ (pop_list (in_line c)).1)
      × (contents (dec_conns_count c).0.conns_wait ≡ (pop_list (in_line c)).0)
      × ((dec_conns_count c).0.conns_count
          ≡ c.conns_count - (if is_none (pop_list (in_line c)).1 then 1 else 0))
unfolding dec_conns_count
dec_conns_count_turn c waits =
    let (rest, first) = next_waiting-in_line c in
    elim (Option-cases (pop_list (in_line c)).1) [
      | inl nobody ↦ rw (dec_conns_count, waits, first, nobody) (refl, rest, refl)
      | inr (i, somebody) ↦ rw (dec_conns_count, waits, first, somebody) (refl, rest, omega arith)
    ]
