-- ===== src/LbClient.antt =====
-- The load-balancing client, lbclient.go. The clients behind it are parameters: a client tells how
-- many of its requests are pending. A uint32 and a uint64 wrap around.
pub mod Choice
pub mod Penalty
use justhttp.Base.{
  ℕ, ◌+◌, ◌-◌, ◌%◌, ◌^◌, Bool, true, false, ◌&&◌, ◌||◌, Option, none, some, List, [], ◌∷◌, ltb,
  ◌==◌, if◌then◌else◌,
}

-- `lbClient`: what `c.c.PendingRequests()` returns now, and the two counters.
pub record LbState : Type 0 where
  pub pending : ℕ
  pub penalty : ℕ
  pub total : ℕ

-- `lbClient.PendingRequests`.
unfoldable pub pending_requests : LbState → ℕ
pending_requests c = c.pending + c.penalty

-- `n < minN || (n == minN && t < minT)`.
unfoldable pub is_better : ℕ → ℕ → ℕ → ℕ → Bool
is_better n t min_n min_t = ltb n min_n || n == min_n && ltb t min_t

-- The loop of `LBClient.get` over `cs[i:]`; `min_c` is the index of `minC`.
unfoldable pub get_loop : List LbState → ℕ → ℕ → ℕ → ℕ → ℕ
unfolding pending_requests is_better
get_loop [] i min_c min_n min_t = min_c
get_loop (c ∷ cs) i min_c min_n min_t =
    let better = is_better (pending_requests c) c.total min_n min_t in
    get_loop cs (i + 1) (if better then i else min_c) (if better then pending_requests c else min_n)
      (if better then c.total else min_t)

-- `LBClient.get` once its clients are set up, as an index; `none` is an index out of range.
unfoldable pub get : List LbState → Option ℕ
unfolding get_loop
get [] = none
get (c ∷ cs) = some (get_loop cs 1 0 (pending_requests c) c.total)

-- `maxPenalty`.
abbrev pub max_penalty : ℕ
max_penalty = 300

-- `decPenalty` adds the bit pattern of -1.
unfoldable pub dec_penalty : LbState → LbState
dec_penalty c = record c { penalty = (c.penalty + (2 ^ 32 - 1)) % 2 ^ 32 }

-- `incPenalty`.
unfoldable pub inc_penalty : LbState → LbState × Bool
unfolding dec_penalty
inc_penalty c =
    let m = (c.penalty + 1) % 2 ^ 32 in
    let more = record c { penalty = m } in
    if ltb max_penalty m then (dec_penalty more, false) else (more, true)

-- What `lbClient.DoDeadline` does behind the request; the flag tells whether `decPenalty` is due
-- after `penaltyDuration`.
unfoldable pub after_request : LbState → Bool → LbState × Bool
unfolding inc_penalty
after_request c healthy =
    if healthy
    then (record c { total = (c.total + 1) % 2 ^ 64 }, false)
    else (if (inc_penalty c).1
        then ((inc_penalty c).0, true)
        else (record (inc_penalty c).0 { total = (c.total + 1) % 2 ^ 64 }, false))
