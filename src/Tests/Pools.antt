-- ===== src/Tests/Pools.antt =====
-- Workers and clients: workerpool.go and lbclient.go.
use justhttp.Base.{ℕ, ◌≡◌, refl, false, some, [], ◌∷◌, arith}
use justhttp.WorkerPool.{WorkerChan, WorkerPool, get_ch, clean}
use justhttp.WorkerPool.System.{
  Workers, new_workers, serve, served, Reach, start, next, serving, serving_done, IsBalanced,
  Reach-IsBalanced,
}
use justhttp.LbClient.{LbState, get}
use justhttp.LbClient.Choice.{IsLeast, get-IsLeast}

abbrev worker : ℕ → ℕ → WorkerChan
worker t n = record { last_use_time = t; ch = n }

abbrev three_waiting : WorkerPool
three_waiting = record {
  max_workers_count = 4;
  workers_count = 3;
  must_stop = false;
  ready = worker 10 0 ∷ worker 20 1 ∷ worker 30 2 ∷ [];
}

clean_run :
    clean three_waiting 25
    ≡ some (record three_waiting { ready = worker 30 2 ∷ [] }, worker 10 0 ∷ worker 20 1 ∷ [])
unfolding clean
clean_run = refl

abbrev one_served : Workers
one_served = served (serve (new_workers 2)) (worker 0 0) 7

one_served-Reach : Reach 2 one_served
unfolding serve get_ch
one_served-Reach = next (next start (serving refl)) (serving_done (worker 0 0) 7 (omega arith) refl)

Reach-IsBalanced_example : IsBalanced 2 one_served
Reach-IsBalanced_example = Reach-IsBalanced one_served-Reach

abbrev lb : ℕ → ℕ → ℕ → LbState
lb n m t = record { pending = n; penalty = m; total = t }

get-IsLeast_example :
    (i : ℕ) × (get (lb 2 0 5 ∷ lb 1 0 9 ∷ lb 1 0 3 ∷ []) ≡ some i)
    × IsLeast (lb 2 0 5 ∷ lb 1 0 9 ∷ lb 1 0 3 ∷ []) i
get-IsLeast_example = get-IsLeast (lb 2 0 5 ∷ lb 1 0 9 ∷ lb 1 0 3 ∷ []) (λ e. cc)
