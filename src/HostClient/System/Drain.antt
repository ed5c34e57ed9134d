-- ===== src/HostClient/System/Drain.antt =====
-- The pool can give up all its connections.
use justhttp.Base.{
  ℕ, zero, suc, ◌+◌, ◌*◌, ◌<◌, ◌≡◌, refl, ap, ◌⊎◌, inl, inr, Bool, true, false, none, some, List,
  [], ◌∷◌, arith, if◌then◌else◌, Bool-cases, Option-cases, length, get_elem?, All,
}
use justhttp.HostClient.Want.{
  ClientConn, WantConn, no_free_conns, try_deliver, is_settled, cancel, put_want,
}
use justhttp.HostClient.Want.Owed.{owed, IsWant, IsWant-get_elem?}
use justhttp.HostClient.Pool.{
  HostClient, next_waiting, dec_conns_count, deliver, hand_over, append_conn, take_idle,
}
use justhttp.HostClient.System.{
  Clients, handed, handing_over, dialed_for, dial_failed, closing, count_dropped, cancelled,
  change_want, idle_closed, Step, dialing_failed, dialing_for_done, closing_one, dropping,
  giving_up, closing_idle, Reach,
}
use justhttp.HostClient.System.Places.{IsPooled, under_way, next_waiting-open}
use justhttp.HostClient.System.Counted.{Step-IsPooled, Reach-IsPooled}

pub data Leads : Clients → Clients → Type 0 where
  here : {s : Clients} → Leads s s
  further : {s t u : Clients} → Step s t → Leads t u → Leads s u

Leads-trans : {s t u : Clients} → Leads s t → Leads t u → Leads s u
Leads-trans here more = more
Leads-trans (further step rest) more = further step (Leads-trans rest more)

abbrev IsOver : WantConn → Type 0
IsOver w = w.pending ≡ false

abbrev pendings : List WantConn → ℕ
pendings [] = 0
pendings (w ∷ wants) = (if w.pending then 1 else 0) + pendings wants

-- Either all calls are over, or one can give up.
find_pending :
    (wants : List WantConn)
    → All IsOver wants
      ⊎ ((i : ℕ) × (w : WantConn) × (get_elem? wants i ≡ some w)
          × (w.pending ≡ true)
          × (pendings (put_want wants i (cancel w no_free_conns).0) < pendings wants))
unfolding put_want cancel
find_pending [] = inl tt
find_pending (w ∷ wants) = elim (Bool-cases w.pending) [
  | inl open_want ↦ inr (0, w, refl, open_want, ground (arith, open_want))
  | inr over ↦ elim (find_pending wants) [
    | inl others ↦ inl (over, others)
    | inr (i, v, found, pending, less) ↦ inr (suc i, v, found, pending, omega (arith, less))
  ]
]

quieten :
    {limit : ℕ} (n : ℕ) (s : Clients)
    → pendings s.client.wants < n
    → IsPooled limit s
    → (t : Clients) × Leads s t × All IsOver t.client.wants × IsPooled limit t
unfolding cancelled change_want
quieten zero s h v = absurd (omega arith)
quieten (suc n) s h v = elim (find_pending s.client.wants) [
  | inl over ↦ (s, here, over, v)
  | inr (i, w, found, pending, less) ↦
      let t = cancelled s i w no_free_conns in
      let step : Step s t = giving_up i w no_free_conns found pending refl in
      let (u, leads, over, vu) = quieten n t (omega arith) (Step-IsPooled s t step v) in
      (u, further step leads, over, vu)
]

owed-IsOver : (wants : List WantConn) → All IsOver wants → owed wants ≡ 0
owed-IsOver [] a = refl
owed-IsOver (w ∷ wants) (h, a) = ground (arith, h, owed-IsOver wants a)

IsOver-get_elem? :
    (wants : List WantConn) (i : ℕ) (w : WantConn)
    → All IsOver wants
    → get_elem? wants i ≡ some w
    → w.pending ≡ false
IsOver-get_elem? [] i w a e = cc
IsOver-get_elem? (v ∷ wants) zero w (h, a) e = let same : v ≡ w = cc in rw (← same) h
IsOver-get_elem? (v ∷ wants) (suc i) w (h, a) e = IsOver-get_elem? wants i w a e

pub put_want_same :
    (wants : List WantConn) (i : ℕ) (w : WantConn)
    → get_elem? wants i ≡ some w
    → put_want wants i w ≡ wants
unfolding put_want
put_want_same [] i w e = refl
put_want_same (v ∷ wants) zero w e = let same : v ≡ w = cc in rw same refl
put_want_same (v ∷ wants) (suc i) w e = ap (◌∷◌ v) (put_want_same wants i w e)

-- Nobody waits where all calls are over.
nobody_waits :
    {limit : ℕ} (s : Clients)
    → IsPooled limit s
    → All IsOver s.client.wants
    → (next_waiting s.client).1 ≡ none
nobody_waits s v over = elim (Option-cases (next_waiting s.client).1) [
  | inl nobody ↦ nobody
  | inr (i, first) ↦
      let (w, found, open_want) = next_waiting-open s.client i first in
      let kept = (IsWant-get_elem? s.client.wants i w v.settled found).kept open_want in
      absurd (ground (arith, kept, IsOver-get_elem? s.client.wants i w over found))
]

-- A connection that comes when all calls are over is not taken.
deliver-IsOver :
    (c : HostClient) (i : ℕ) (cc : ClientConn)
    → All IsWant c.wants
    → All IsOver c.wants
    → deliver c i cc ≡ (c, false)
unfolding deliver try_deliver
deliver-IsOver c i cc a over = elim (Option-cases (get_elem? c.wants i)) [
  | inl gone ↦ rw (deliver, gone) refl
  | inr (w, found) ↦
      let v = IsWant-get_elem? c.wants i w a found in
      let ended = IsOver-get_elem? c.wants i w over found in
      let settled : is_settled w ≡ true = ground (arith, v.closes, v.kept, ended) in
      rw (deliver, found, try_deliver, settled) (rw (put_want_same c.wants i w found) refl)
]

abbrev busy : Clients → ℕ
busy s =
    3 * length s.dialing_for + 2 * s.dialing + 2 * s.held + 2 * length s.client.conns + s.ending

abbrev Progress : Clients → Type 0
Progress s =
    (t : Clients) × Step s t × All IsOver t.client.wants × (t.handing ≡ none) × (busy t < busy s)

dropping-Progress :
    {limit : ℕ} (s : Clients)
    → IsPooled limit s
    → All IsOver s.client.wants
    → 0 < s.ending
    → s.handing ≡ none
    → Progress s
unfolding count_dropped dec_conns_count
dropping-Progress s v over pos free =
    let nobody = nobody_waits s v over in
    (
      count_dropped s,
      dropping pos free refl,
      elim (Bool-cases s.client.waits) [
        | inl always ↦ ground (arith, always, nobody, over)
        | inr never ↦ ground (arith, never, over)
      ],
      elim (Bool-cases s.client.waits) [
        | inl always ↦ ground (arith, always, nobody, free)
        | inr never ↦ ground (arith, never, free)
      ],
      elim (Bool-cases s.client.waits) [
        | inl always ↦ ground (arith, always, nobody, pos)
        | inr never ↦ ground (arith, never, pos)
      ],
    )

dialing_for-Progress :
    {limit : ℕ} (s : Clients) (i : ℕ) (others : List ℕ)
    → IsPooled limit s
    → All IsOver s.client.wants
    → s.dialing_for ≡ i ∷ others
    → s.handing ≡ none
    → Progress s
unfolding dialed_for
dialing_for-Progress s i others v over line free =
    let cc : ClientConn = record { conn = 0; last_use_time = 0 } in
    let given = deliver-IsOver s.client i cc v.settled over in
    (
      dialed_for s i cc others,
      dialing_for_done [] others i cc line refl,
      rw given over,
      free,
      rw (given, line) (omega arith),
    )

Nat-cases : (n : ℕ) → (n ≡ 0) ⊎ (0 < n)
Nat-cases zero = inl refl
Nat-cases (suc n) = inr (omega arith)

List-cases : (ws : List ℕ) → (ws ≡ []) ⊎ ((i : ℕ) × (others : List ℕ) × (ws ≡ i ∷ others))
List-cases [] = inl refl
List-cases (w ∷ ws) = inr (w, ws, refl)

-- While a connection is somewhere, a step brings it nearer to its end.
progress :
    {limit : ℕ} (s : Clients)
    → IsPooled limit s
    → All IsOver s.client.wants
    → s.handing ≡ none
    → (busy s ≡ 0) ⊎ Progress s
unfolding dial_failed closing idle_closed take_idle
progress s v over free = elim (List-cases s.dialing_for) [
  | inr (i, others, line) ↦ inr (dialing_for-Progress s i others v over line free)
  | inl no_dialing_for ↦ elim (Nat-cases s.dialing) [
    | inr pos ↦ inr (dial_failed s, dialing_failed pos refl, over, free, omega (arith, pos))
    | inl no_dialing ↦ elim (Nat-cases s.held) [
      | inr pos ↦ inr (closing s, closing_one pos refl, over, free, omega (arith, pos))
      | inl no_held ↦ elim (Nat-cases (length s.client.conns)) [
        | inr pos ↦ inr (idle_closed s, closing_idle free refl, over, free, omega (arith, pos))
        | inl no_idle ↦ elim (Nat-cases s.ending) [
          | inr pos ↦ inr (dropping-Progress s v over pos free)
          | inl no_ending ↦
              inl (omega (arith, no_dialing, no_held, no_idle, no_ending, ap length no_dialing_for))
        ]
      ]
    ]
  ]
]

drain :
    {limit : ℕ} (n : ℕ) (s : Clients)
    → busy s < n
    → IsPooled limit s
    → All IsOver s.client.wants
    → s.handing ≡ none
    → (t : Clients) × Leads s t × (t.client.conns_count ≡ 0)
drain zero s h v over free = absurd (omega arith)
drain (suc n) s h v over free = elim (progress s v over free) [
  | inl idle ↦
      (s, here, omega (arith, idle, v.counted, owed-IsOver s.client.wants over, ap under_way free))
  | inr (t, step, still, freed, less) ↦
      let (u, leads, none_left) = drain n t (omega arith) (Step-IsPooled s t step v) still freed in
      (u, further step leads, none_left)
]

-- A hand-over under way ends: nobody takes the connection.
unlock :
    {limit : ℕ} (s : Clients)
    → IsPooled limit s
    → All IsOver s.client.wants
    → (t : Clients) × Leads s t × All IsOver t.client.wants × IsPooled limit t × (t.handing ≡ none)
unfolding handed hand_over append_conn
unlock s v over = elim (Option-cases s.handing) [
  | inl free ↦ (s, here, over, v, free)
  | inr ((i, cc), locked) ↦
      let step : Step s (handed s i cc) = handing_over i cc locked refl in
      (
        handed s i cc,
        further step here,
        rw (deliver-IsOver s.client i cc v.settled over) over,
        Step-IsPooled s (handed s i cc) step v,
        refl,
      )
]

-- From every state that the goroutines can reach, they can go on to one where `connsCount` is 0: no
-- place of a connection is lost, whatever has been cancelled, delivered or dialed.
pub Reach-drains :
    {max : ℕ} {waits : Bool} {s : Clients}
    → Reach max waits s
    → (t : Clients) × Leads s t × (t.client.conns_count ≡ 0)
Reach-drains {s = s} r =
    let (t, quieting, over, v) =
      quieten (pendings s.client.wants + 1) s (omega arith) (Reach-IsPooled r) in
    let (l, unlocking, ended, w, free) = unlock t v over in
    let (u, draining, none_left) = drain (busy l + 1) l (omega arith) w ended free in
    (u, Leads-trans quieting (Leads-trans unlocking draining), none_left)
