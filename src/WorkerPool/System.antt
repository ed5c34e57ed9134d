-- ===== src/WorkerPool/System.antt =====
-- The pool and its workers, as steps that goroutines take in any order.
use justhttp.Base.{
  ℕ, zero, suc, ◌+◌, ◌-◌, ◌≤◌, ◌<◌, ◌≡◌, refl, inl, inr, true, false, none, some, List, [], ◌∷◌,
  ◌++◌, arith, if◌then◌else◌, Option-cases, length, take, drop, length-append, take-append-drop,
}
use justhttp.WorkerPool.{
  WorkerChan, WorkerPool, waiting, created, refused, split_last, get_ch, release, end_worker, stop,
  clean, search_stale,
}

-- `busy` counts the workers that serve a connection or have one in their channel, `ending` those
-- that have been sent nil or were refused by `release`, and have not ended yet.
pub record Workers : Type 0 where
  pub pool : WorkerPool
  pub busy : ℕ
  pub ending : ℕ

abbrev pub new_workers : ℕ → Workers
new_workers max = record {
  pool = record { max_workers_count = max; workers_count = 0; must_stop = false; ready = [] };
  busy = 0;
  ending = 0;
}

-- `Serve`.
unfoldable pub serve : Workers → Workers
serve s = elim (get_ch s.pool).1 [
  | refused ↦ s
  | created ↦ record s { pool = (get_ch s.pool).0; busy = s.busy + 1 }
  | waiting w ↦ record s { pool = (get_ch s.pool).0; busy = s.busy + 1 }
]

-- A worker that has served its connection calls `release`.
unfoldable pub served : Workers → WorkerChan → ℕ → Workers
served s w now =
    if (release s.pool w now).1
    then record s { pool = (release s.pool w now).0; busy = s.busy - 1 }
    else record s { busy = s.busy - 1; ending = s.ending + 1 }

unfoldable pub stop_all : Workers → Workers
stop_all s = record s { pool = (stop s.pool).0; ending = s.ending + length (stop s.pool).1 }

unfoldable pub worker_ended : Workers → Workers
worker_ended s = record s { pool = end_worker s.pool; ending = s.ending - 1 }

pub data Step (s t : Workers) : Type 0 where
  serving : t ≡ serve s → Step s t
  serving_done : (w : WorkerChan) (now : ℕ) → 0 < s.busy → t ≡ served s w now → Step s t
  cleaning :
      (critical : ℕ) (wp : WorkerPool) (ws : List WorkerChan)
      → clean s.pool critical ≡ some (wp, ws)
      → t ≡ record s { pool = wp; ending = s.ending + length ws }
      → Step s t
  stopping : t ≡ stop_all s → Step s t
  ending_one : 0 < s.ending → t ≡ worker_ended s → Step s t

pub data Reach (max : ℕ) : Workers → Type 0 where
  start : Reach max (new_workers max)
  next : {s t : Workers} → Reach max s → Step s t → Reach max t

-- Every worker is counted once, the limit is kept, and none waits once the pool has stopped.
pub record IsBalanced (max : ℕ) (s : Workers) : Type 0 where
  pub fixed : s.pool.max_workers_count ≡ max
  pub counted : s.pool.workers_count ≡ length s.pool.ready + s.busy + s.ending
  pub limit : s.pool.workers_count ≤ max
  pub quiet : s.pool.must_stop ≡ true → s.pool.ready ≡ []

split_last-none : (ws : List WorkerChan) → split_last ws ≡ none → ws ≡ []
unfolding split_last
split_last-none [] h = refl
split_last-none (w ∷ ws) h = cc

length-split_last :
    (ws front : List WorkerChan) (last : WorkerChan)
    → split_last ws ≡ some (front, last)
    → length ws ≡ suc (length front)
unfolding split_last
length-split_last [] front last h = cc
length-split_last (w ∷ ws) front last h = elim (Option-cases (split_last ws)) [
  | inl empty ↦ ground (arith, empty, h, split_last-none ws empty)
  | inr ((f, l), some_front) ↦ ground (arith, some_front, h, length-split_last ws f l some_front)
]

serve-IsBalanced : {max : ℕ} (s : Workers) → IsBalanced max s → IsBalanced max (serve s)
unfolding serve get_ch
serve-IsBalanced s v = elim (Option-cases (split_last s.pool.ready)) [
  | inl empty ↦ record {
    fixed = ground (arith, empty, v.fixed);
    counted = ground (arith, empty, v.counted);
    limit = ground (arith, empty, v.limit, v.fixed);
    quiet = ground (arith, empty, v.quiet);
  }
  | inr ((front, last), full) ↦ record {
    fixed = ground (arith, full, v.fixed);
    counted = ground (arith, full, v.counted, length-split_last s.pool.ready front last full);
    limit = ground (arith, full, v.limit);
    quiet = λ q. ground (arith, full, v.quiet, length-split_last s.pool.ready front last full);
  }
]

served-IsBalanced :
    {max : ℕ} (s : Workers) (w : WorkerChan) (now : ℕ)
    → 0 < s.busy
    → IsBalanced max s
    → IsBalanced max (served s w now)
unfolding served release
served-IsBalanced s w now busy v = record {
  fixed = ground (arith, v.fixed);
  counted =
      ground
        (arith, v.counted, length-append s.pool.ready ((record w { last_use_time = now }) ∷ []));
  limit = ground (arith, v.limit);
  quiet = ground (arith, v.quiet);
}

cleaning-IsBalanced :
    {max : ℕ} (s : Workers) (critical : ℕ) (wp : WorkerPool) (ws : List WorkerChan)
    → IsBalanced max s
    → clean s.pool critical ≡ some (wp, ws)
    → IsBalanced max (record s { pool = wp; ending = s.ending + length ws })
unfolding clean
cleaning-IsBalanced s critical wp ws v h =
    elim (Option-cases
      (search_stale (length s.pool.ready + 1) s.pool.ready critical 0 (length s.pool.ready))) [
        | inl bad ↦ ground (arith, bad, h)
        | inr (n, found) ↦ record {
          fixed = ground (arith, found, h, v.fixed);
          counted = ground (
            arith,
            found,
            h,
            v.counted,
            take-append-drop n s.pool.ready,
            length-append (take n s.pool.ready) (drop n s.pool.ready),
          );
          limit = ground (arith, found, h, v.limit);
          quiet = ground (arith, found, h, v.quiet, drop_nil n);
        }
      ]
  where
    drop_nil : (n : ℕ) → drop {A = WorkerChan} n [] ≡ []
    drop_nil zero = refl
    drop_nil (suc n) = refl

stop_all-IsBalanced : {max : ℕ} (s : Workers) → IsBalanced max s → IsBalanced max (stop_all s)
unfolding stop_all stop
stop_all-IsBalanced s v = record {
  fixed = v.fixed;
  counted = omega (arith, v.counted);
  limit = v.limit;
  quiet = λ q. refl;
}

worker_ended-IsBalanced :
    {max : ℕ} (s : Workers) → 0 < s.ending → IsBalanced max s → IsBalanced max (worker_ended s)
unfolding worker_ended end_worker
worker_ended-IsBalanced s pos v = record {
  fixed = v.fixed;
  counted = omega (arith, v.counted);
  limit = omega (arith, v.limit);
  quiet = v.quiet;
}

-- In every state that the goroutines can reach, `workersCount` is the number of workers that wait,
-- serve or are ending, it is at most `MaxWorkersCount`, and after `Stop` no worker waits.
pub Reach-IsBalanced : {max : ℕ} {s : Workers} → Reach max s → IsBalanced max s
Reach-IsBalanced start = record {
  fixed = refl;
  counted = omega arith;
  limit = omega arith;
  quiet = λ q. refl;
}
Reach-IsBalanced (next {s} r (serving e)) = rw e (serve-IsBalanced s (Reach-IsBalanced r))
Reach-IsBalanced (next {s} r (serving_done w now busy e)) =
    rw e (served-IsBalanced s w now busy (Reach-IsBalanced r))
Reach-IsBalanced (next {s} r (cleaning critical wp ws h e)) =
    rw e (cleaning-IsBalanced s critical wp ws (Reach-IsBalanced r) h)
Reach-IsBalanced (next {s} r (stopping e)) = rw e (stop_all-IsBalanced s (Reach-IsBalanced r))
Reach-IsBalanced (next {s} r (ending_one pos e)) =
    rw e (worker_ended-IsBalanced s pos (Reach-IsBalanced r))

split_last-append :
    (ws : List WorkerChan) (w : WorkerChan) → split_last (ws ++ w ∷ []) ≡ some (ws, w)
unfolding split_last
split_last-append [] w = refl
split_last-append (x ∷ ws) w = ground (arith, split_last-append ws w)

-- The worker that was released last serves the next connection, and the pool is as it was before
-- the release, unless it has stopped.
pub get_ch-release :
    (wp : WorkerPool) (w : WorkerChan) (now : ℕ)
    → wp.must_stop ≡ false
    → get_ch (release wp w now).0 ≡ (wp, waiting (record w { last_use_time = now }))
unfolding get_ch release
get_ch-release wp w now going =
    ground (arith, going, split_last-append wp.ready (record w { last_use_time = now }))
