-- ===== src/HostClient/Queue/Refines.antt =====
-- The two stages of the queue stand for one list.
use justhttp.Base.{
  ℕ, zero, suc, ◌≤◌, ◌≡◌, refl, sym, ap, ◌∙◌, inl, inr, Bool, true, Option, none, some, List, [],
  ◌∷◌, ◌++◌, append-nil, append_assoc, arith, if◌then◌else◌, Bool-cases, Option-cases, length,
  length-append,
}
use justhttp.HostClient.Queue.{
  WantConnQueue, len, push_back, pop_from, pop_front, peek_from, peek_front, clear_front,
  pop_waiting,
}

abbrev pub contents : WantConnQueue → List ℕ
contents q = q.head ++ q.tail

-- A list as a queue.
abbrev pub pop_list : List ℕ → List ℕ × Option ℕ
pop_list [] = ([], none)
pop_list (w ∷ ws) = (ws, some w)

abbrev pub drop_until : (ℕ → Bool) → List ℕ → List ℕ
drop_until waiting [] = []
drop_until waiting (w ∷ ws) = if waiting w then w ∷ ws else drop_until waiting ws

-- What the operations of the queue come to for a list.
pub data Op : Type 0 where
  push : ℕ → Op
  pop peek : Op
  clear first : (ℕ → Bool) → Op

unfoldable pub run : List Op → WantConnQueue → List (Option ℕ)
unfolding push_back pop_front peek_front clear_front pop_waiting len
run [] q = []
run (push w ∷ ops) q = run ops (push_back q w)
run (pop ∷ ops) q = (pop_front q).1 ∷ run ops (pop_front q).0
run (peek ∷ ops) q = peek_front q ∷ run ops q
run (clear waiting ∷ ops) q = run ops (clear_front (len q) waiting q)
run (first waiting ∷ ops) q =
    (pop_waiting (len q) waiting q).1 ∷ run ops (pop_waiting (len q) waiting q).0

unfoldable pub replay : List Op → List ℕ → List (Option ℕ)
replay [] ws = []
replay (push w ∷ ops) ws = replay ops (ws ++ w ∷ [])
replay (pop ∷ ops) ws = (pop_list ws).1 ∷ replay ops (pop_list ws).0
replay (peek ∷ ops) ws = (pop_list ws).1 ∷ replay ops ws
replay (clear waiting ∷ ops) ws = replay ops (drop_until waiting ws)
replay (first waiting ∷ ops) ws =
    (pop_list (drop_until waiting ws)).1 ∷ replay ops (pop_list (drop_until waiting ws)).0

pop_from-contents :
    (head tail : List ℕ)
    → (contents (pop_from head tail).0 ≡ (pop_list (head ++ tail)).0)
      × ((pop_from head tail).1 ≡ (pop_list (head ++ tail)).1)
unfolding pop_from
pop_from-contents [] [] = (refl, refl)
pop_from-contents [] (w ∷ tail) = (append-nil tail, refl)
pop_from-contents (w ∷ head) tail = (refl, refl)

peek_from-contents : (head tail : List ℕ) → peek_from head tail ≡ (pop_list (head ++ tail)).1
unfolding peek_from
peek_from-contents [] [] = refl
peek_from-contents [] (w ∷ tail) = refl
peek_from-contents (w ∷ head) tail = refl

clear_front-contents :
    (rounds : ℕ) (waiting : ℕ → Bool) (q : WantConnQueue)
    → length (contents q) ≤ rounds
    → contents (clear_front rounds waiting q) ≡ drop_until waiting (contents q)
unfolding clear_front peek_front pop_front
clear_front-contents rounds waiting q h = go rounds q (contents q) refl h
  where
    go :
        (rounds : ℕ) (q : WantConnQueue) (ws : List ℕ)
        → contents q ≡ ws
        → length ws ≤ rounds
        → contents (clear_front rounds waiting q) ≡ drop_until waiting ws
    go zero q [] e h = e
    go zero q (w ∷ ws) e h = absurd (omega arith)
    go (suc rounds) q [] e h = rw (clear_front, peek_from-contents q.head q.tail, e) e
    go (suc rounds) q (w ∷ ws) e h =
        let rest = (pop_from-contents q.head q.tail).0 ∙ ap (λ t. (pop_list t).0) e in
        let more = go rounds (pop_front q).0 ws rest (omega arith) in
        rw (clear_front, peek_from-contents q.head q.tail, e)
          (elim (Bool-cases (waiting w)) [ inl still ↦ rw still e | inr over ↦ rw over more ])

pub pop_waiting-contents :
    (rounds : ℕ) (waiting : ℕ → Bool) (q : WantConnQueue) (ws : List ℕ)
    → contents q ≡ ws
    → length ws ≤ rounds
    → (contents (pop_waiting rounds waiting q).0 ≡ (pop_list (drop_until waiting ws)).0)
      × ((pop_waiting rounds waiting q).1 ≡ (pop_list (drop_until waiting ws)).1)
unfolding pop_waiting pop_front
pop_waiting-contents zero waiting q [] e h = (e, refl)
pop_waiting-contents zero waiting q (w ∷ ws) e h = absurd (omega arith)
pop_waiting-contents (suc rounds) waiting q [] e h =
    let (rest, popped) = pop_from-contents q.head q.tail in
    rw (pop_waiting, popped, e) (rest ∙ ap (λ t. (pop_list t).0) e, refl)
pop_waiting-contents (suc rounds) waiting q (w ∷ ws) e h =
    let (rest, popped) = pop_from-contents q.head q.tail in
    let behind = rest ∙ ap (λ t. (pop_list t).0) e in
    let more = pop_waiting-contents rounds waiting (pop_front q).0 ws behind (omega arith) in
    rw (pop_waiting, popped, e)
      (elim (Bool-cases (waiting w)) [
        | inl still ↦ rw still (behind, refl)
        | inr over ↦ rw over more
      ])

-- What is popped for one that waits waits.
pub pop_waiting-waiting :
    (rounds : ℕ) (waiting : ℕ → Bool) (q : WantConnQueue) (w : ℕ)
    → (pop_waiting rounds waiting q).1 ≡ some w
    → waiting w ≡ true
unfolding pop_waiting
pop_waiting-waiting zero waiting q w h = cc
pop_waiting-waiting (suc rounds) waiting q w h = elim (Option-cases (pop_front q).1) [
  | inl empty ↦ absurd (ground (arith, empty, h))
  | inr (v, popped) ↦ elim (Bool-cases (waiting v)) [
    | inl still ↦ ground (arith, popped, still, h)
    | inr over ↦
        pop_waiting-waiting rounds waiting (pop_front q).0 w (ground (arith, popped, over, h))
  ]
]

pub length-contents : (q : WantConnQueue) → length (contents q) ≤ len q
unfolding len
length-contents q = omega (arith, length-append q.head q.tail)

-- A run of the queue's operations hands out what the same operations on one list hand out: the
-- first pushed that has not been popped, and where one that waits is looked for, the first of them.
pub run-replay : (ops : List Op) (q : WantConnQueue) → run ops q ≡ replay ops (contents q)
unfolding run replay push_back pop_front peek_front
run-replay [] q = refl
run-replay (push w ∷ ops) q =
    run-replay ops (push_back q w) ∙ ap (replay ops) (sym (append_assoc q.head q.tail (w ∷ [])))
run-replay (pop ∷ ops) q =
    let (rest, popped) = pop_from-contents q.head q.tail in
    rw (run-replay ops (pop_front q).0, rest, popped) refl
run-replay (peek ∷ ops) q = rw (run-replay ops q, peek_from-contents q.head q.tail) refl
run-replay (clear waiting ∷ ops) q =
    run-replay ops (clear_front (len q) waiting q)
    ∙ ap (replay ops) (clear_front-contents (len q) waiting q (length-contents q))
run-replay (first waiting ∷ ops) q =
    let (rest, popped) =
      pop_waiting-contents (len q) waiting q (contents q) refl (length-contents q) in
    rw (run-replay ops (pop_waiting (len q) waiting q).0, rest, popped) refl
