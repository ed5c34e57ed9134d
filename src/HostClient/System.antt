-- ===== src/HostClient/System.antt =====
-- The pool and those who use it, as steps that goroutines take in any order. A step that takes
-- `connsLock` waits for the end of a `releaseConn` that holds it; those that take only the lock of a
-- `wantConn`, as `cancel` does, come in between.
pub mod Places
pub mod Counted
pub mod Turns
pub mod Drain
use justhttp.Base.{
  ℕ, zero, suc, ◌+◌, ◌-◌, ◌≤◌, ◌<◌, ◌≡◌, refl, sym, ap, ◌∙◌, inl, inr, Bool, true, false, not, ◌&&◌,
  ◌||◌, Option, none, some, List, [], ◌∷◌, ◌++◌, arith, if◌then◌else◌, Bool-cases, Option-cases,
  length, get_elem?, is_none, All,
}
use justhttp.HostClient.Want.{
  ClientConn, ClientError, WantConn, broken, try_deliver, cancel, collect, put_want,
}
use justhttp.HostClient.Pool.{
  HostClient, idle, created, exhausted, acquire_conn, queue_for_idle, dec_conns_count, deliver,
  set_max_conns, limit_of, release_conn, hand_over, take_idle, take_old, stop_cleaner,
}

-- `held` counts the connections in the hands of goroutines, `dialing` the calls of `acquireConn`
-- that dial, `arriving` those that go on to `queueForIdle`, and `ending` the goroutines that go on
-- to `decConnsCount`. `dialing_for` are the `wantConn`s that `dialConnFor` runs for. `handing` is the
-- `releaseConn` that has found a `wantConn` and holds `connsLock` on its way to `tryDeliver`.
pub record Clients : Type 0 where
  pub client : HostClient
  pub held : ℕ
  pub dialing : ℕ
  pub arriving : ℕ
  pub ending : ℕ
  pub dialing_for : List ℕ
  pub handing : Option (ℕ × ClientConn)

abbrev pub new_clients : ℕ → Bool → Clients
new_clients max waits = record {
  client = record {
    max_conns = max;
    waits = waits;
    conns = [];
    conns_count = 0;
    conns_cleaner_run = false;
    conns_wait = record { head = []; tail = [] };
    wants = [];
  };
  held = 0;
  dialing = 0;
  arriving = 0;
  ending = 0;
  dialing_for = [];
  handing = none;
}

-- `acquireConn`, up to its dialing or its waiting.
unfoldable pub acquired : Clients → Bool → Clients
unfolding acquire_conn
acquired s connection_close =
    let c = (acquire_conn s.client connection_close).0 in
    elim (acquire_conn s.client connection_close).1 [
      | idle cc ↦ record s { client = c; held = s.held + 1 }
      | created start ↦ record s { client = c; dialing = s.dialing + 1 }
      | exhausted ↦
          if c.waits
          then record s { client = c; arriving = s.arriving + 1 }
          else record s { client = c }
    ]

unfoldable pub queued : Clients → Clients
unfolding queue_for_idle
queued s = record s { client = queue_for_idle s.client; arriving = s.arriving - 1 }

-- The end of a dialing of `acquireConn`.
unfoldable pub dialed : Clients → Clients
dialed s = record s { dialing = s.dialing - 1; held = s.held + 1 }

unfoldable pub dial_failed : Clients → Clients
dial_failed s = record s { dialing = s.dialing - 1; ending = s.ending + 1 }

-- `dialConnFor` with a connection: what is not delivered is held, to be released.
unfoldable pub dialed_for : Clients → ℕ → ClientConn → List ℕ → Clients
unfolding deliver
dialed_for s i cc others =
    let tried = deliver s.client i cc in
    record s {
      client = tried.0;
      dialing_for = others;
      held = if tried.1 then s.held else s.held + 1;
    }

-- The numbered `wantConn` changed.
unfoldable pub change_want : HostClient → ℕ → WantConn → HostClient
unfolding put_want
change_want c i w = record c { wants = put_want c.wants i w }

-- `dialConnFor` with an error.
unfoldable pub dial_for_failed : Clients → ℕ → WantConn → ClientError → List ℕ → Clients
unfolding change_want try_deliver
dial_for_failed s i w e others = record s {
  client = change_want s.client i (try_deliver w (broken e)).0;
  dialing_for = others;
  ending = s.ending + 1;
}

unfoldable pub released : Clients → ClientConn → ℕ → Clients
unfolding release_conn
released s cc now =
    let (c, used, found) = release_conn s.client cc now in
    record s {
      client = c;
      held = s.held - 1;
      handing = elim found [ none ↦ none | some i ↦ some (i, used) ];
    }

unfoldable pub handed : Clients → ℕ → ClientConn → Clients
unfolding hand_over
handed s i cc = record s { client = hand_over s.client i cc; handing = none }

-- `closeConn`, which calls `decConnsCount` first.
unfoldable pub closing : Clients → Clients
closing s = record s { held = s.held - 1; ending = s.ending + 1 }

unfoldable pub count_dropped : Clients → Clients
unfolding dec_conns_count
count_dropped s =
    let c = (dec_conns_count s.client).0 in
    elim (dec_conns_count s.client).1 [
      | none ↦ record s { client = c; ending = s.ending - 1 }
      | some i ↦ record s {
        client = c;
        ending = s.ending - 1;
        dialing_for = s.dialing_for ++ i ∷ [];
      }
    ]

-- One more connection in somebody's hands, if there is one.
abbrev pub hold : ℕ → Option ClientConn → ℕ
hold n none = n
hold n (some cc) = n + 1

-- `acquireConn` gets what has been delivered. With an error it goes on to `cancel`, which then
-- changes nothing.
unfoldable pub collected : Clients → ℕ → WantConn → Clients
unfolding change_want collect
collected s i w = record s {
  client = change_want s.client i (collect w);
  held = hold s.held w.conn;
}

-- `acquireConn` gives up.
unfoldable pub cancelled : Clients → ℕ → WantConn → ClientError → Clients
unfolding change_want cancel
cancelled s i w e = record s {
  client = change_want s.client i (cancel w e).0;
  held = hold s.held (cancel w e).1;
}

unfoldable pub idle_closed : Clients → Clients
unfolding take_idle
idle_closed s = record s {
  client = (take_idle s.client).0;
  ending = s.ending + length (take_idle s.client).1;
}

unfoldable pub cleaned : Clients → ℕ → ℕ → Clients
unfolding take_old
cleaned s max_idle now = record s {
  client = (take_old s.client max_idle now).0;
  ending = s.ending + length (take_old s.client max_idle now).1;
}

-- The steps of the goroutines.
pub data Step (s t : Clients) : Type 0 where
  acquiring :
      (connection_close : Bool) → s.handing ≡ none → t ≡ acquired s connection_close → Step s t
  queueing : 0 < s.arriving → s.handing ≡ none → t ≡ queued s → Step s t
  dialing_done : 0 < s.dialing → t ≡ dialed s → Step s t
  dialing_failed : 0 < s.dialing → t ≡ dial_failed s → Step s t
  dialing_for_done :
      (front back : List ℕ) (i : ℕ) (cc : ClientConn)
      → s.dialing_for ≡ front ++ i ∷ back
      → t ≡ dialed_for s i cc (front ++ back)
      → Step s t
  dialing_for_failed :
      (front back : List ℕ) (i : ℕ) (w : WantConn) (e : ClientError)
      → s.dialing_for ≡ front ++ i ∷ back
      → get_elem? s.client.wants i ≡ some w
      → t ≡ dial_for_failed s i w e (front ++ back)
      → Step s t
  releasing :
      (cc : ClientConn) (now : ℕ) → 0 < s.held → s.handing ≡ none → t ≡ released s cc now → Step s t
  handing_over : (i : ℕ) (cc : ClientConn) → s.handing ≡ some (i, cc) → t ≡ handed s i cc → Step s t
  closing_one : 0 < s.held → t ≡ closing s → Step s t
  dropping : 0 < s.ending → s.handing ≡ none → t ≡ count_dropped s → Step s t
  collecting :
      (i : ℕ) (w : WantConn)
      → get_elem? s.client.wants i ≡ some w
      → w.pending ≡ true
      → w.ready ≡ true
      → t ≡ collected s i w
      → Step s t
  giving_up :
      (i : ℕ) (w : WantConn) (e : ClientError)
      → get_elem? s.client.wants i ≡ some w
      → w.pending ≡ true
      → t ≡ cancelled s i w e
      → Step s t
  closing_idle : s.handing ≡ none → t ≡ idle_closed s → Step s t
  cleaning : (max_idle now : ℕ) → s.handing ≡ none → t ≡ cleaned s max_idle now → Step s t
  cleaner_stopping :
      s.handing ≡ none → t ≡ record s { client = (stop_cleaner s.client).0 } → Step s t

-- `max` is the limit at the start; `SetMaxConns` may change it, to none that is greater.
pub data Reach (max : ℕ) (waits : Bool) : Clients → Type 0 where
  start : Reach max waits (new_clients max waits)
  after : {s t : Clients} → Reach max waits s → Step s t → Reach max waits t
  limited :
      {s : Clients} (n : ℕ)
      → Reach max waits s
      → s.handing ≡ none
      → limit_of (set_max_conns s.client n) ≤ limit_of (new_clients max waits).client
      → Reach max waits (record s { client = set_max_conns s.client n })
