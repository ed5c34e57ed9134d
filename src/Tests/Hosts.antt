-- ===== src/Tests/Hosts.antt =====
-- The pool of connections to a host: client.go.
use justhttp.Base.{
  ℕ, zero, suc, ◌%◌, ◌≡◌, refl, Bool, true, false, none, some, [], ◌∷◌, arith, ◌==◌, length,
}
use justhttp.HostClient.Retry
use justhttp.HostClient.Retry.{Attempt, do_request, IsDone, do_request-IsDone}
use justhttp.HostClient.Queue.Refines.{contents, push, pop, clear, first, run, replay, run-replay}
use justhttp.HostClient.Want.{ClientConn, new_want, timeout}
use justhttp.HostClient.Pool.{limit_of}
use justhttp.HostClient.System.{
  Clients, new_clients, acquired, dialed, queued, released, handed, handing_over, cancelled,
  giving_up, Reach, start, after, acquiring, dialing_done, queueing, releasing,
}
use justhttp.HostClient.System.Places.{IsPooled}
use justhttp.HostClient.System.Counted.{Reach-IsPooled}
use justhttp.HostClient.System.Turns.{HandedTo, in_line, release_conn_turn}
use justhttp.HostClient.System.Drain.{Leads, here, further, Reach-drains}

-- One connection is allowed; it is held, and two calls wait.
abbrev two_waiting : Clients
two_waiting =
    queued (queued (acquired (acquired (dialed (acquired (new_clients 1 true) false)) false) false))

abbrev conn : ClientConn
conn = record { conn = 7; last_use_time = 0 }

two_waiting-Reach : Reach 1 true two_waiting
unfolding acquired queued dialed
two_waiting-Reach =
    after
      (after
        (after
          (after (after (after start (acquiring false refl refl)) (dialing_done (omega arith) refl))
            (acquiring false refl refl))
          (acquiring false refl refl))
        (queueing (omega arith) refl refl))
      (queueing (omega arith) refl refl)

-- The connection goes to the first that waits.
abbrev popped : Clients
popped = released two_waiting conn 40

abbrev used : ClientConn
used = record { conn = 7; last_use_time = 40 }

popped-Reach : Reach 1 true popped
unfolding acquired queued dialed released
popped-Reach = after two_waiting-Reach (releasing conn 40 (omega arith) refl refl)

abbrev delivered : Clients
delivered = handed popped 0 used

delivered-Reach : Reach 1 true delivered
unfolding acquired queued dialed released handed
delivered-Reach = after popped-Reach (handing_over 0 used refl refl)

delivered_run : (delivered.client.conns ≡ []) × (contents delivered.client.conns_wait ≡ 1 ∷ [])
unfolding acquired queued dialed released handed
delivered_run = (refl, refl)

-- The first is cancelled on the way, and the connection is idle.
abbrev raced : Clients
raced = cancelled popped 0 new_want timeout

raced-Leads : Leads popped raced
unfolding acquired queued dialed released
raced-Leads = further (giving_up 0 new_want timeout refl refl refl) here

raced_run : (handed raced 0 used).client.conns ≡ used ∷ []
unfolding acquired queued dialed released handed cancelled
raced_run = refl

-- A connection that is released before the call comes to the queue leaves it waiting there.
missed_run :
    let s =
      queued (released (acquired (dialed (acquired (new_clients 1 true) false)) false) conn 9) in
    (length s.client.conns ≡ 1) × (in_line s.client ≡ 0 ∷ [])
unfolding acquired queued dialed released
missed_run = (refl, refl)

Reach-IsPooled_example : IsPooled 1 delivered
unfolding limit_of
Reach-IsPooled_example = Reach-IsPooled delivered-Reach

Reach-drains_example : (t : Clients) × Leads delivered t × (t.client.conns_count ≡ 0)
Reach-drains_example = Reach-drains delivered-Reach

release_conn_turn_example :
    (popped.handing ≡ some (0, used))
    × (contents popped.client.conns_wait ≡ 1 ∷ [])
    × (popped.client.conns ≡ two_waiting.client.conns)
    × HandedTo 0 used raced.client (handed raced 0 used).client
unfolding acquired queued dialed released cancelled
release_conn_turn_example =
    release_conn_turn conn 40 0 (1 ∷ []) two_waiting-Reach (omega arith) refl refl refl raced-Leads
      refl

abbrev even : ℕ → Bool
even n = n % 2 == 0

run-replay_example :
    run
      (push 1 ∷ push 2 ∷ clear even ∷ push 3 ∷ pop ∷ first even ∷ [])
      (record { head = []; tail = [] })
    ≡ replay (push 1 ∷ push 2 ∷ clear even ∷ push 3 ∷ pop ∷ first even ∷ []) []
run-replay_example =
    run-replay (push 1 ∷ push 2 ∷ clear even ∷ push 3 ∷ pop ∷ first even ∷ [])
      (record { head = []; tail = [] })

-- The server closes an idle connection, and the next one serves.
abbrev twice : ℕ → Attempt
twice zero = (true, some justhttp.HostClient.Retry.eof)
twice (suc i) = (false, none)

abbrev never : ℕ → Bool
never i = false

do_request-IsDone_example : IsDone 0 twice false never (do_request 0 twice false never)
do_request-IsDone_example = do_request-IsDone 0 twice false never

do_request_run : do_request 0 twice false never ≡ record { failure = none; calls = 2 }
unfolding do_request
do_request_run = refl
