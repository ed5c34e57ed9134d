-- ===== src/HostClient/Want.antt =====
-- `wantConn`: a call of `acquireConn` that waits for a connection.
pub mod Owed
use justhttp.Base.{
  ℕ, zero, suc, ◌+◌, ◌-◌, ◌≤◌, ◌<◌, ◌≡◌, refl, sym, ap, ◌∙◌, inl, inr, Bool, true, false, not, ◌&&◌,
  ◌||◌, Option, none, some, List, [], ◌∷◌, ◌++◌, arith, if◌then◌else◌, Bool-cases, Option-cases,
  length, get_elem?, is_none, All,
}

-- A connection is known by a number.
pub record ClientConn : Type 0 where
  pub conn : ℕ
  pub last_use_time : ℕ

pub data ClientError : Type 0 where
  no_free_conns timeout dial_error : ClientError

-- `ready` tells that the channel is closed. `pending` tells that `acquireConn` has not returned
-- yet: no operation reads it.
pub record WantConn : Type 0 where
  pub ready : Bool
  pub conn : Option ClientConn
  pub err : Option ClientError
  pub pending : Bool

abbrev pub new_want : WantConn
new_want = record { ready = false; conn = none; err = none; pending = true }

-- The test `w.conn != nil || w.err != nil`.
unfoldable pub is_settled : WantConn → Bool
is_settled w = not (is_none w.conn) || not (is_none w.err)

-- What `tryDeliver` is given: a connection or an error, so that its panic on neither is out.
pub data Outcome : Type 0 where
  connected : ClientConn → Outcome
  broken : ClientError → Outcome

-- `tryDeliver`.
unfoldable pub try_deliver : WantConn → Outcome → WantConn × Bool
unfolding is_settled
try_deliver w (connected cc) =
    if is_settled w then (w, false) else (record w { ready = true; conn = some cc }, true)
try_deliver w (broken e) =
    if is_settled w then (w, false) else (record w { ready = true; err = some e }, true)

-- `cancel`, with the connection that it goes on to release; `acquireConn` returns then.
unfoldable pub cancel : WantConn → ClientError → WantConn × Option ClientConn
unfolding is_settled
cancel w e = (
  record { ready = w.ready || not (is_settled w); conn = none; err = some e; pending = false },
  w.conn,
)

-- The case `<-w.ready` of `acquireConn`, which returns `w.conn` and `w.err`.
unfoldable pub collect : WantConn → WantConn
collect w = record w { pending = false }

-- `waiting`, of the numbered `wantConn` of a list of them.
unfoldable pub waiting : List WantConn → ℕ → Bool
waiting wants i = elim (get_elem? wants i) [ none ↦ false | some w ↦ not w.ready ]

-- The list with another `wantConn` at a number.
unfoldable pub put_want : List WantConn → ℕ → WantConn → List WantConn
put_want [] i w = []
put_want (v ∷ wants) zero w = w ∷ wants
put_want (v ∷ wants) (suc i) w = v ∷ put_want wants i w
