-- ===== src/WorkerPool.antt =====
-- The pool of workers, workerpool.go. Each function is a section under `wp.lock`; a time is a
-- number of nanoseconds, and a worker's channel is known by a number.
pub mod Cleaning
pub mod System
use justhttp.Base.{
  ℕ, zero, suc, ◌+◌, ◌-◌, ◌/◌, Bool, true, false, Option, none, some, List, [], ◌∷◌, ◌++◌, ltb,
  if◌then◌else◌, length, get_elem?, take, drop,
}

pub record WorkerChan : Type 0 where
  pub last_use_time : ℕ
  pub ch : ℕ

pub record WorkerPool : Type 0 where
  pub max_workers_count : ℕ
  pub workers_count : ℕ
  pub must_stop : Bool
  pub ready : List WorkerChan

-- What `getCh` hands out: a waiting worker, a new one, or nil.
pub data Chosen : Type 0 where
  waiting : WorkerChan → Chosen
  created : Chosen
  refused : Chosen

-- `ready[:n]` and `ready[n]` for the last index `n`.
unfoldable pub split_last : List WorkerChan → Option (List WorkerChan × WorkerChan)
split_last [] = none
split_last (w ∷ ws) =
    some (elim (split_last ws) [ none ↦ ([], w) | some (front, last) ↦ (w ∷ front, last) ])

-- `getCh`, up to the start of the goroutine.
unfoldable pub get_ch : WorkerPool → WorkerPool × Chosen
unfolding split_last
get_ch wp = elim (split_last wp.ready) [
  | none ↦
      if ltb wp.workers_count wp.max_workers_count
      then (record wp { workers_count = wp.workers_count + 1 }, created)
      else (wp, refused)
  | some (front, last) ↦ (record wp { ready = front }, waiting last)
]

-- `release` at the time `now`.
unfoldable pub release : WorkerPool → WorkerChan → ℕ → WorkerPool × Bool
release wp ch now =
    if wp.must_stop
    then (wp, false)
    else (record wp { ready = wp.ready ++ (record ch { last_use_time = now }) ∷ [] }, true)

-- The end of `workerFunc`.
unfoldable pub end_worker : WorkerPool → WorkerPool
end_worker wp = record wp { workers_count = wp.workers_count - 1 }

-- `Stop`, with the workers that are sent nil.
unfoldable pub stop : WorkerPool → WorkerPool × List WorkerChan
stop wp = (record wp { ready = []; must_stop = true }, wp.ready)

-- The binary search of `clean`. `stop` is `r + 1`, so that `l <= r` is `l < stop`; the first
-- argument bounds the rounds, and `none` is an index out of range or a bound that is too small.
unfoldable pub search_stale : ℕ → List WorkerChan → ℕ → ℕ → ℕ → Option ℕ
search_stale zero ready critical l stop = none
search_stale (suc rounds) ready critical l stop =
    let mid = (l + (stop - 1)) / 2 in
    let right = search_stale rounds ready critical (mid + 1) stop in
    let left = search_stale rounds ready critical l mid in
    if ltb l stop
    then (elim (get_elem? ready mid) [
      | none ↦ none
      | some w ↦ if ltb w.last_use_time critical then right else left
    ])
    else some stop

-- `clean` at the time `critical`, with the workers that are sent nil.
unfoldable pub clean : WorkerPool → ℕ → Option (WorkerPool × List WorkerChan)
unfolding search_stale
clean wp critical =
    elim (search_stale (length wp.ready + 1) wp.ready critical 0 (length wp.ready)) [
      | none ↦ none
      | some n ↦ some (record wp { ready = drop n wp.ready }, take n wp.ready)
    ]
