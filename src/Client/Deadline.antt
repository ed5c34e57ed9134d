-- ===== src/Client/Deadline.antt =====
-- `clientDoDeadline` of client.go: the goroutine that runs `c.Do` and the caller that waits for it
-- or for a timer, as steps that they take in any order. What is done under `mu` is one step.
use mathlib.Core.Path.{subst}
use justhttp.Base.{ℕ, ◌≡◌, refl, ap, ◌∙◌, Bool, true, false, Option, none, some, if◌then◌else◌}

-- What `c.Do` returns is known by a number, nil included; `no_answer` is `ErrTimeout`.
pub data Returned : Type 0 where
  answer : ℕ → Returned
  no_answer : Returned

-- `ch` has one place. `finished` tells that the goroutine is done, with what `c.Do` returned, and
-- `written` that it has filled `resp` and given `req` its body back, which the caller has lent to
-- the copy. Both are the caller's once it has returned.
pub record Call : Type 0 where
  pub ch : Option ℕ
  pub timedout : Bool
  pub responded : Bool
  pub finished : Option ℕ
  pub written : Bool
  pub returned : Option Returned

-- The call with a deadline that is not over.
abbrev pub new_call : Call
new_call = record {
  ch = none;
  timedout = false;
  responded = false;
  finished = none;
  written = false;
  returned = none;
}

-- The goroutine, once `c.Do` has returned; `none` is a send that blocks.
unfoldable pub finish : Call → ℕ → Option Call
finish c e = if c.timedout then some (record c { finished = some e }) else (elim c.ch [
  | none ↦ some (record c { finished = some e; written = true; ch = some e; responded = true })
  | some old ↦ none
])

-- The `select` takes the answer.
unfoldable pub receive : Call → ℕ → Call
receive c e = record c { ch = none; returned = some (answer e) }

-- The `select` takes the timer; `none` is a receive that blocks.
unfoldable pub expire : Call → Option Call
expire c =
    if c.responded
    then (elim c.ch [
      | none ↦ none
      | some e ↦ some (record c { ch = none; returned = some (answer e) })
    ])
    else some (record c { timedout = true; returned = some no_answer })

pub data Step (c d : Call) : Type 0 where
  finishing : (e : ℕ) → c.finished ≡ none → finish c e ≡ some d → Step c d
  receiving : (e : ℕ) → c.returned ≡ none → c.ch ≡ some e → d ≡ receive c e → Step c d
  expiring : c.returned ≡ none → expire c ≡ some d → Step c d

pub data Reach : Call → Type 0 where
  start : Reach new_call
  after : {c d : Call} → Reach c → Step c d → Reach d

-- What the call comes to, by what has returned so far: `answered` is that of the goroutine.
abbrev IsConsistent : Option ℕ → Option Returned → Call → Type 0
IsConsistent none none c =
    (c.ch ≡ none) × (c.timedout ≡ false) × (c.responded ≡ false) × (c.written ≡ false)
IsConsistent (some e) none c =
    (c.ch ≡ some e) × (c.timedout ≡ false) × (c.responded ≡ true) × (c.written ≡ true)
IsConsistent none (some (answer e)) c = ⊥
IsConsistent (some e) (some (answer e')) c =
    (e ≡ e') × (c.ch ≡ none) × (c.timedout ≡ false) × (c.responded ≡ true) × (c.written ≡ true)
IsConsistent none (some no_answer) c =
    (c.ch ≡ none) × (c.timedout ≡ true) × (c.responded ≡ false) × (c.written ≡ false)
IsConsistent (some e) (some no_answer) c =
    (c.ch ≡ none) × (c.timedout ≡ true) × (c.responded ≡ false) × (c.written ≡ false)

abbrev pub IsCall : Call → Type 0
IsCall c = IsConsistent c.finished c.returned c

-- A step that does not block.
abbrev Ensures : Option Call → Type 0
Ensures none = ⊥
Ensures (some d) = IsCall d

Ensures-some : (o : Option Call) (d : Call) → Ensures o → o ≡ some d → IsCall d
Ensures-some none d v h = absurd v
Ensures-some (some c) d v h = let same : c ≡ d = cc in rw (← same) v

Ensures-total : (o : Option Call) → Ensures o → (d : Call) × (o ≡ some d)
Ensures-total none v = absurd v
Ensures-total (some d) v = (d, refl)

abbrev call_of : Option ℕ → Bool → Bool → Option ℕ → Bool → Option Returned → Call
call_of ch timedout responded finished written returned = record {
  ch = ch;
  timedout = timedout;
  responded = responded;
  finished = finished;
  written = written;
  returned = returned;
}

-- The goroutine ends, by the fields of the call.
finish_fields :
    (ch : Option ℕ) (timedout responded written : Bool) (returned : Option Returned) (e : ℕ)
    → IsCall (call_of ch timedout responded none written returned)
    → Ensures (finish (call_of ch timedout responded none written returned) e)
unfolding finish
finish_fields none false r w none e v = (refl, refl, refl, refl)
finish_fields none true r w none e v = cc
finish_fields (some x) t r w none e v = cc
finish_fields ch t r w (some (answer x)) e v = absurd v
finish_fields ch true r w (some no_answer) e v = v
finish_fields ch false r w (some no_answer) e v = cc

finish-Ensures : (c : Call) (e : ℕ) → c.finished ≡ none → IsCall c → Ensures (finish c e)
finish-Ensures c e idle v = by_finished c.finished idle v
  where
    by_finished :
        (f : Option ℕ)
        → f ≡ none
        → IsCall (call_of c.ch c.timedout c.responded f c.written c.returned)
        → Ensures (finish (call_of c.ch c.timedout c.responded f c.written c.returned) e)
    by_finished none h w = finish_fields c.ch c.timedout c.responded c.written c.returned e w
    by_finished (some x) h w = cc

-- The timer is taken, by the fields of a call that has not returned.
expire_fields :
    (ch : Option ℕ) (timedout responded written : Bool) (finished : Option ℕ)
    → IsCall (call_of ch timedout responded finished written none)
    → Ensures (expire (call_of ch timedout responded finished written none))
unfolding expire
expire_fields ch t false w none v = (v.0, refl, refl, v.3)
expire_fields ch t true w none v = cc
expire_fields ch t false w (some e) v = cc
expire_fields none t true w (some e) v = cc
expire_fields (some x) t true w (some e) v = (cc, refl, v.1, refl, v.3)

expire-Ensures : (c : Call) → c.returned ≡ none → IsCall c → Ensures (expire c)
expire-Ensures c waits v = by_returned c.returned waits v
  where
    by_returned :
        (r : Option Returned)
        → r ≡ none
        → IsCall (call_of c.ch c.timedout c.responded c.finished c.written r)
        → Ensures (expire (call_of c.ch c.timedout c.responded c.finished c.written r))
    by_returned none h w = expire_fields c.ch c.timedout c.responded c.written c.finished w
    by_returned (some x) h w = cc

receive_fields :
    (ch : Option ℕ) (timedout responded written : Bool) (finished : Option ℕ) (e : ℕ)
    → ch ≡ some e
    → IsCall (call_of ch timedout responded finished written none)
    → IsCall (receive (call_of ch timedout responded finished written none) e)
unfolding receive
receive_fields ch t r w none e h v = cc
receive_fields ch t r w (some x) e h v = (cc, refl, v.1, v.2, v.3)

receive-IsCall :
    (c : Call) (e : ℕ) → c.returned ≡ none → c.ch ≡ some e → IsCall c → IsCall (receive c e)
receive-IsCall c e waits full v = by_returned c.returned waits v
  where
    by_returned :
        (r : Option Returned)
        → r ≡ none
        → IsCall (call_of c.ch c.timedout c.responded c.finished c.written r)
        → IsCall (receive (call_of c.ch c.timedout c.responded c.finished c.written r) e)
    by_returned none h w = receive_fields c.ch c.timedout c.responded c.written c.finished e full w
    by_returned (some x) h w = cc

pub Reach-IsCall : {c : Call} → Reach c → IsCall c
Reach-IsCall start = (refl, refl, refl, refl)
Reach-IsCall (after {c} {d} r (finishing e idle h)) =
    Ensures-some (finish c e) d (finish-Ensures c e idle (Reach-IsCall r)) h
Reach-IsCall (after {c} {d} r (receiving e waits full h)) =
    rw h (receive-IsCall c e waits full (Reach-IsCall r))
Reach-IsCall (after {c} {d} r (expiring waits h)) =
    Ensures-some (expire c) d (expire-Ensures c waits (Reach-IsCall r)) h

-- What a call that has returned has come to.
abbrev pub IsOver : Call → Returned → Type 0
IsOver c (answer e) = (c.finished ≡ some e) × (c.ch ≡ none) × (c.written ≡ true)
IsOver c no_answer = (c.ch ≡ none) × (c.written ≡ false)

over :
    (c : Call) (f : Option ℕ) (r : Returned)
    → c.finished ≡ f
    → IsConsistent f (some r) c
    → IsOver c r
over c none (answer e) h v = absurd v
over c none no_answer h v = (v.0, v.3)
over c (some x) (answer e) h v = (h ∙ ap some v.0, v.1, v.4)
over c (some x) no_answer h v = (v.0, v.3)

-- In every state that the two can reach, neither blocks: the goroutine can end, and the caller can
-- take the timer. Once the call has returned, the channel that goes back to the pool is empty, and
-- it has returned what `c.Do` did, with `resp` written, or `ErrTimeout`, and then nothing is or
-- will be written.
pub Reach-IsOver :
    {c : Call}
    → Reach c
    → ((e : ℕ) → c.finished ≡ none → (d : Call) × (finish c e ≡ some d))
      × (c.returned ≡ none → (d : Call) × (expire c ≡ some d))
      × ((r : Returned) → c.returned ≡ some r → IsOver c r)
Reach-IsOver {c} r =
    let v = Reach-IsCall r in
    (
      λ e idle. Ensures-total (finish c e) (finish-Ensures c e idle v),
      λ waits. Ensures-total (expire c) (expire-Ensures c waits v),
      λ x h. over c c.finished x refl (subst (λ o. IsConsistent c.finished o c) h v),
    )
