-- ===== src/HostClient/Pool.antt =====
-- The pool of a `HostClient`. Each function is a section under `connsLock`, `releaseConn` in two parts; a time is a number of
-- nanoseconds.
use justhttp.Base.{
  ℕ, suc, ◌+◌, ◌-◌, Bool, true, false, not, ◌&&◌, ◌||◌, Option, none, some, List, [], ◌∷◌, ◌++◌,
  if◌then◌else◌, ltb, ◌==◌, length, get_elem?, take, drop,
}
use justhttp.HostClient.Queue.{WantConnQueue, len, push_back, clear_front, pop_waiting}
use justhttp.HostClient.Want.{
  ClientConn, WantConn, new_want, connected, try_deliver, waiting, put_want,
}

-- `max_conns` is 0 where `MaxConns` is not positive, `waits` tells that `MaxConnWaitTimeout` is.
-- `wants` are the `wantConn`s that there have been; `conns_wait` holds their places in it.
pub record HostClient : Type 0 where
  pub max_conns : ℕ
  pub waits : Bool
  pub conns : List ClientConn
  pub conns_count : ℕ
  pub conns_cleaner_run : Bool
  pub conns_wait : WantConnQueue
  pub wants : List WantConn

-- `MaxConns`, or `DefaultMaxConnsPerHost`.
unfoldable pub limit_of : HostClient → ℕ
limit_of c = if c.max_conns == 0 then 512 else c.max_conns

unfoldable pub set_max_conns : HostClient → ℕ → HostClient
set_max_conns c n = record c { max_conns = n }

-- What the first section of `acquireConn` comes to: an idle connection, one to dial, with whether
-- the cleaner starts, or none.
pub data Acquired : Type 0 where
  idle : ClientConn → Acquired
  created : Bool → Acquired
  exhausted : Acquired

-- `conns[:n]` and `conns[n]` for the last index `n`.
unfoldable pub split_last_conn : List ClientConn → Option (List ClientConn × ClientConn)
split_last_conn [] = none
split_last_conn (cc ∷ conns) =
    some
      (elim (split_last_conn conns) [ none ↦ ([], cc) | some (front, last) ↦ (cc ∷ front, last) ])

-- The first section of `acquireConn`.
unfoldable pub acquire_conn : HostClient → Bool → HostClient × Acquired
unfolding split_last_conn limit_of
acquire_conn c connection_close = elim (split_last_conn c.conns) [
  | some (front, last) ↦ (record c { conns = front }, idle last)
  | none ↦
      let start_cleaner = not c.conns_cleaner_run && not connection_close in
      if ltb c.conns_count (limit_of c)
      then (
        record c {
          conns_count = c.conns_count + 1;
          conns_cleaner_run = c.conns_cleaner_run || start_cleaner;
        },
        created start_cleaner,
      )
      else (c, exhausted)
]

-- `queueForIdle`, of a new `wantConn`.
unfoldable pub queue_for_idle : HostClient → HostClient
unfolding clear_front push_back len waiting
queue_for_idle c = record c {
  wants = c.wants ++ new_want ∷ [];
  conns_wait =
      push_back (clear_front (len c.conns_wait) (waiting c.wants) c.conns_wait) (length c.wants);
}

-- The first waiting in the queue, and the queue behind it.
unfoldable pub next_waiting : HostClient → WantConnQueue × Option ℕ
unfolding pop_waiting len waiting
next_waiting c = pop_waiting (len c.conns_wait) (waiting c.wants) c.conns_wait

-- `decConnsCount`, with the `wantConn` that it starts `dialConnFor` for.
unfoldable pub dec_conns_count : HostClient → HostClient × Option ℕ
unfolding next_waiting
dec_conns_count c =
    if c.waits
    then (elim (next_waiting c).1 [
      | some i ↦ (record c { conns_wait = (next_waiting c).0 }, some i)
      | none ↦ (record c { conns_wait = (next_waiting c).0; conns_count = c.conns_count - 1 }, none)
    ])
    else (record c { conns_count = c.conns_count - 1 }, none)

-- `tryDeliver` of a connection to the numbered `wantConn`: whether it is taken.
unfoldable pub deliver : HostClient → ℕ → ClientConn → HostClient × Bool
unfolding try_deliver put_want
deliver c i cc = elim (get_elem? c.wants i) [
  | none ↦ (c, false)
  | some w ↦
      let tried = try_deliver w (connected cc) in
      (record c { wants = put_want c.wants i tried.0 }, tried.1)
]

unfoldable pub append_conn : HostClient → ClientConn → HostClient
append_conn c cc = record c { conns = c.conns ++ cc ∷ [] }

-- `releaseConn` at the time `now`, up to the call of `waiting` that finds a `wantConn`: the
-- connection as it is then, and the number of the `wantConn` that it goes on to deliver it to. With
-- none it is idle.
unfoldable pub release_conn : HostClient → ClientConn → ℕ → HostClient × ClientConn × Option ℕ
unfolding next_waiting append_conn
release_conn c cc now =
    let used = record cc { last_use_time = now } in
    let popped = record c { conns_wait = (next_waiting c).0 } in
    if c.waits
    then (elim (next_waiting c).1 [
      | none ↦ (append_conn popped used, used, none)
      | some i ↦ (popped, used, some i)
    ])
    else (append_conn c used, used, none)

-- The rest of `releaseConn`, with `connsLock` held since: `tryDeliver`, which a `cancel` may have
-- come before.
unfoldable pub hand_over : HostClient → ℕ → ClientConn → HostClient
unfolding deliver append_conn
hand_over c i cc = let tried = deliver c i cc in if tried.1 then tried.0 else append_conn tried.0 cc

-- The first section of `CloseIdleConnections`, with what it goes on to close.
unfoldable pub take_idle : HostClient → HostClient × List ClientConn
take_idle c = (record c { conns = [] }, c.conns)

-- How many connections at the front `connsCleaner` finds too old.
unfoldable pub count_old : ℕ → ℕ → List ClientConn → ℕ
count_old max_idle now [] = 0
count_old max_idle now (cc ∷ conns) =
    if ltb max_idle (now - cc.last_use_time) then suc (count_old max_idle now conns) else 0

-- The first section of a round of `connsCleaner`, with what it goes on to close.
unfoldable pub take_old : HostClient → ℕ → ℕ → HostClient × List ClientConn
unfolding count_old
take_old c max_idle now =
    let n = count_old max_idle now c.conns in (record c { conns = drop n c.conns }, take n c.conns)

-- The last section of a round, with whether the cleaner stops.
unfoldable pub stop_cleaner : HostClient → HostClient × Bool
stop_cleaner c =
    if c.conns_count == 0 then (record c { conns_cleaner_run = false }, true) else (c, false)
