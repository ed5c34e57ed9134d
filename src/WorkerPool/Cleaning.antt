-- ===== src/WorkerPool/Cleaning.antt =====
-- `clean` finds the workers that have waited too long.
use justhttp.Base.{
  ℕ, zero, suc, ◌+◌, ◌-◌, ◌/◌, ◌≤◌, ◌<◌, ◌≡◌, refl, inl, inr, some, List, [], ◌∷◌, ◌++◌, arith, ltb,
  if◌then◌else◌, ltb→lt, Bool-cases, length, get_elem?, take, drop, take-append-drop, All,
}
use justhttp.WorkerPool.{WorkerChan, WorkerPool, search_stale, clean}

-- The workers are in the order in which they were released.
abbrev pub IsOrdered : List WorkerChan → Type 0
IsOrdered [] = Unit
IsOrdered (w ∷ ws) = All (λ v. w.last_use_time ≤ v.last_use_time) ws × IsOrdered ws

-- How many workers at the front were used before `critical`.
abbrev stale : ℕ → List WorkerChan → ℕ
stale critical [] = 0
stale critical (w ∷ ws) = if ltb w.last_use_time critical then suc (stale critical ws) else 0

All-get_elem? :
    (P : WorkerChan → Type 0) (ws : List WorkerChan) (i : ℕ) (v : WorkerChan)
    → All P ws
    → get_elem? ws i ≡ some v
    → P v
All-get_elem? P [] i v h e = cc
All-get_elem? P (w ∷ ws) zero v (h, hs) e = let same : w ≡ v = cc in rw (← same) h
All-get_elem? P (w ∷ ws) (suc i) v (h, hs) e = All-get_elem? P ws i v hs e

stale_before :
    (critical : ℕ) (ws : List WorkerChan) (i : ℕ) (v : WorkerChan)
    → IsOrdered ws
    → get_elem? ws i ≡ some v
    → ltb v.last_use_time critical ≡ ltb i (stale critical ws)
stale_before critical [] i v h e = cc
stale_before critical (w ∷ ws) zero v (h, hs) e =
    let same : w ≡ v = cc in rw (← same) (ground arith)
stale_before critical (w ∷ ws) (suc i) v (h, hs) e = ground (
  arith,
  stale_before critical ws i v hs e,
  All-get_elem? (λ u. w.last_use_time ≤ u.last_use_time) ws i v h e,
)

get_elem?-lt :
    (ws : List WorkerChan) (i : ℕ) → i < length ws → (v : WorkerChan) × (get_elem? ws i ≡ some v)
get_elem?-lt [] i h = absurd (omega arith)
get_elem?-lt (w ∷ ws) zero h = (w, refl)
get_elem?-lt (w ∷ ws) (suc i) h = get_elem?-lt ws i (omega arith)

search_stale_lem :
    (rounds : ℕ) (ws : List WorkerChan) (critical l stop : ℕ)
    → IsOrdered ws
    → l ≤ stale critical ws
    → stale critical ws ≤ stop
    → stop ≤ length ws
    → stop - l < rounds
    → search_stale rounds ws critical l stop ≡ some (stale critical ws)
unfolding search_stale
search_stale_lem zero ws critical l stop o lo hi len fuel = absurd (omega arith)
search_stale_lem (suc rounds) ws critical l stop o lo hi len fuel = elim (Bool-cases (ltb l stop)) [
  | inl more ↦
      let mid = (l + (stop - 1)) / 2 in
      let (v, found) = get_elem?-lt ws mid (omega (arith, ltb→lt l stop more)) in
      rw (more, found)
        (ground (
          arith,
          stale_before critical ws mid v o found,
          ltb→lt l stop more,
          search_stale_lem rounds ws critical (mid + 1) stop o,
          search_stale_lem rounds ws critical l mid o,
        ))
  | inr done ↦ ground arith
]

le-length-stale : (critical : ℕ) (ws : List WorkerChan) → stale critical ws ≤ length ws
le-length-stale critical [] = omega arith
le-length-stale critical (w ∷ ws) = ground (arith, le-length-stale critical ws)

All-take-stale :
    (critical : ℕ) (ws : List WorkerChan)
    → All (λ v. v.last_use_time < critical) (take (stale critical ws) ws)
All-take-stale critical [] = tt
All-take-stale critical (w ∷ ws) = ground (arith, All-take-stale critical ws)

recent :
    (critical : ℕ) (w : WorkerChan) (ws : List WorkerChan)
    → critical ≤ w.last_use_time
    → All (λ v. w.last_use_time ≤ v.last_use_time) ws
    → All (λ v. critical ≤ v.last_use_time) ws
recent critical w [] h a = tt
recent critical w (v ∷ ws) h (a, rest) = (omega arith, recent critical w ws h rest)

All-drop-stale :
    (critical : ℕ) (ws : List WorkerChan)
    → IsOrdered ws
    → All (λ v. critical ≤ v.last_use_time) (drop (stale critical ws) ws)
All-drop-stale critical [] h = tt
All-drop-stale critical (w ∷ ws) (h, hs) = elim (Bool-cases (ltb w.last_use_time critical)) [
  | inl old ↦ rw old (All-drop-stale critical ws hs)
  | inr new ↦ rw new (ground arith, recent critical w ws (ground arith) h)
]

-- If the workers wait in the order in which they were released, the binary search of `clean` stays
-- in range, and `clean` notifies exactly the workers last used before the critical time and keeps
-- the others, in order.
pub clean_lem :
    (wp : WorkerPool) (critical : ℕ)
    → IsOrdered wp.ready
    → (wp' : WorkerPool) × (stale_workers : List WorkerChan) × (clean wp critical
        ≡ some (wp', stale_workers))
      × (stale_workers ++ wp'.ready ≡ wp.ready)
      × All (λ v. v.last_use_time < critical) stale_workers
      × All (λ v. critical ≤ v.last_use_time) wp'.ready
unfolding clean
clean_lem wp critical o = (
  record wp { ready = drop (stale critical wp.ready) wp.ready },
  take (stale critical wp.ready) wp.ready,
  rw (
    clean,
    search_stale_lem (length wp.ready + 1) wp.ready critical 0 (length wp.ready) o (omega arith)
        (le-length-stale critical wp.ready) (omega arith) (omega arith),
  ),
  take-append-drop (stale critical wp.ready) wp.ready,
  All-take-stale critical wp.ready,
  All-drop-stale critical wp.ready o,
)
