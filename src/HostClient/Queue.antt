-- ===== src/HostClient/Queue.antt =====
-- `wantConnQueue` of client.go. A `wantConn` is known by a number; `head` is the source's `head[headPos:]`.
pub mod Refines
use justhttp.Base.{
  ℕ, zero, suc, ◌+◌, ◌-◌, ◌≤◌, ◌<◌, ◌≡◌, refl, sym, ap, ◌∙◌, inl, inr, Bool, true, false, not,
  Option, none, some, List, [], ◌∷◌, ◌++◌, append-nil, append_assoc, arith, if◌then◌else◌,
  Bool-cases, length, length-append,
}

pub record WantConnQueue : Type 0 where
  pub head : List ℕ
  pub tail : List ℕ

-- `len`.
unfoldable pub len : WantConnQueue → ℕ
len q = length q.head + length q.tail

unfoldable pub push_back : WantConnQueue → ℕ → WantConnQueue
push_back q w = record q { tail = q.tail ++ w ∷ [] }

-- What `popFront` takes from a head, and from the tail if the head is empty.
unfoldable pub pop_from : List ℕ → List ℕ → WantConnQueue × Option ℕ
pop_from (w ∷ head) tail = (record { head = head; tail = tail }, some w)
pop_from [] [] = (record { head = []; tail = [] }, none)
pop_from [] (w ∷ tail) = (record { head = tail; tail = [] }, some w)

unfoldable pub pop_front : WantConnQueue → WantConnQueue × Option ℕ
unfolding pop_from
pop_front q = pop_from q.head q.tail

-- The cases of `peekFront`.
unfoldable pub peek_from : List ℕ → List ℕ → Option ℕ
peek_from (w ∷ head) tail = some w
peek_from [] [] = none
peek_from [] (w ∷ tail) = some w

unfoldable pub peek_front : WantConnQueue → Option ℕ
unfolding peek_from
peek_front q = peek_from q.head q.tail

-- `clearFront`, where `waiting` tells which are waiting still; the first argument bounds the rounds.
unfoldable pub clear_front : ℕ → (ℕ → Bool) → WantConnQueue → WantConnQueue
unfolding peek_front pop_front
clear_front zero waiting q = q
clear_front (suc rounds) waiting q = elim (peek_front q) [
  | none ↦ q
  | some w ↦ if waiting w then q else clear_front rounds waiting (pop_front q).0
]

-- The loop of `releaseConn` and of `decConnsCount` that pops up to the first that waits.
unfoldable pub pop_waiting : ℕ → (ℕ → Bool) → WantConnQueue → WantConnQueue × Option ℕ
unfolding pop_front
pop_waiting zero waiting q = (q, none)
pop_waiting (suc rounds) waiting q = elim (pop_front q).1 [
  | none ↦ ((pop_front q).0, none)
  | some w ↦
      if waiting w then ((pop_front q).0, some w) else pop_waiting rounds waiting (pop_front q).0
]
