-- ===== src/HostClient/Retry.antt =====
-- `HostClient.Do`: how often a request is sent again.
use justhttp.Base.{
  ℕ, zero, suc, ◌+◌, ◌-◌, ◌≤◌, ◌<◌, ◌≡◌, refl, ap, ◌∙◌, ◌⊎◌, inl, inr, Bool, true, false, not, ◌&&◌,
  ◌||◌, Option, none, some, arith, ltb, ◌==◌, if◌then◌else◌, Bool-cases, codes, equal,
}
use justhttp.Header.Request.{RequestHeader, method_of}

-- The errors of `c.do` and of `Do`.
pub data DoError : Type 0 where
  eof connection_closed : DoError
  other : ℕ → DoError

unfoldable pub is_eof : DoError → Bool
is_eof eof = true
is_eof connection_closed = false
is_eof (other n) = false

-- `isIdempotent`.
unfoldable pub is_idempotent : RequestHeader → Bool
unfolding method_of equal
is_idempotent r =
    equal (method_of r) (codes "GET")
    || equal (method_of r) (codes "HEAD")
    || equal (method_of r) (codes "PUT")

-- What `c.do` returns: whether to retry, and an error.
abbrev pub Attempt : Type 0
Attempt = Bool × Option DoError

-- `MaxIdemponentCallAttempts`, or the default.
unfoldable pub attempts_limit : ℕ → ℕ
attempts_limit max = if max == 0 then 5 else max

-- The error of the last call, and the number of calls.
pub record Done : Type 0 where
  pub failure : Option DoError
  pub calls : ℕ

-- Whether the loop goes on behind a call. `retryable` is what `RetryIf` or `isIdempotent` says.
unfoldable pub goes_on : Bool → Bool → Attempt → Bool
unfolding is_eof
goes_on has_body_stream retryable (retry, none) = false
goes_on has_body_stream retryable (retry, some e) =
    retry && not has_body_stream && (retryable || is_eof e)

-- The loop, where `call i` is what the call of `c.do` behind `i` others returns, and `retryable i`
-- what `isRequestRetryable` says behind it: `RetryIf` may answer otherwise in each round. The first
-- argument is `maxAttempts - attempts`, and 0 does not come about.
unfoldable pub do_loop : ℕ → (ℕ → Attempt) → Bool → (ℕ → Bool) → ℕ → Done
unfolding goes_on
do_loop zero call has_body_stream retryable i = record { failure = none; calls = i }
do_loop (suc left) call has_body_stream retryable i =
    let more = do_loop left call has_body_stream retryable (i + 1) in
    if goes_on has_body_stream (retryable i) (call i) && ltb 0 left
    then more
    else record { failure = (call i).1; calls = i + 1 }

-- `io.EOF` becomes `ErrConnectionClosed`.
unfoldable pub close_error : Option DoError → Option DoError
unfolding is_eof
close_error none = none
close_error (some e) = if is_eof e then some connection_closed else some e

-- `HostClient.Do`.
unfoldable pub do_request : ℕ → (ℕ → Attempt) → Bool → (ℕ → Bool) → Done
unfolding attempts_limit do_loop close_error
do_request max call has_body_stream retryable =
    let done = do_loop (attempts_limit max) call has_body_stream retryable 0 in
    record done { failure = close_error done.failure }

-- How the loop behind `i` calls ends: with what the last call returns, behind calls that all asked
-- to go on, and at the limit if the last one asks too.
record IsLooped (limit : ℕ) (call : ℕ → Attempt) (stream : Bool) (retryable : ℕ → Bool) (i : ℕ)
    (d : Done) : Type 0 where
  pub called : i < d.calls
  pub limited : d.calls ≤ limit
  pub last : d.failure ≡ (call (d.calls - 1)).1
  pub before : (j : ℕ) → i ≤ j → suc j < d.calls → goes_on stream (retryable j) (call j) ≡ true
  pub stopped :
      (goes_on stream (retryable (d.calls - 1)) (call (d.calls - 1)) ≡ false) ⊎ (d.calls ≡ limit)

module _ (limit : ℕ) (call : ℕ → Attempt) (stream : Bool) (retryable : ℕ → Bool) where
  -- The loop ends with this call.
  IsLooped-last :
      (i : ℕ)
      → i < limit
      → (goes_on stream (retryable i) (call i) ≡ false) ⊎ (suc i ≡ limit)
      → IsLooped limit call stream retryable i (record { failure = (call i).1; calls = i + 1 })
  IsLooped-last i h ends =
      let e : (i + 1) - 1 ≡ i = omega arith in
      record {
        called = omega arith;
        limited = omega arith;
        last = rw e refl;
        before = λ j le lt. absurd (omega (arith, le, lt));
        stopped = rw e (elim ends [ inl final ↦ inl final | inr full ↦ inr (omega (arith, full)) ]);
      }

  -- The loop goes on behind this call.
  IsLooped-more :
      (i : ℕ) (d : Done)
      → goes_on stream (retryable i) (call i) ≡ true
      → IsLooped limit call stream retryable (i + 1) d
      → IsLooped limit call stream retryable i d
  IsLooped-more i d on v = record {
    called = omega (arith, v.called);
    limited = v.limited;
    last = v.last;
    before = λ j le lt. elim (Bool-cases (ltb i j)) [
      | inl later ↦ v.before j (ground (arith, later)) lt
      | inr now ↦ let same : i ≡ j = ground (arith, now, le) in rw (← same) on
    ];
    stopped = v.stopped;
  }

  do_loop-IsLooped :
      (left i : ℕ)
      → i + left ≡ limit
      → 0 < left
      → IsLooped limit call stream retryable i (do_loop left call stream retryable i)
  unfolding do_loop
  do_loop-IsLooped zero i sum pos = absurd (omega arith)
  do_loop-IsLooped (suc left) i sum pos =
      elim (Bool-cases (goes_on stream (retryable i) (call i))) [
        | inr final ↦ rw final (IsLooped-last i (omega arith) (inl final))
        | inl on ↦ elim (Bool-cases (ltb 0 left)) [
          | inr none_left ↦
              rw (on, none_left)
                (IsLooped-last i (omega arith) (inr (ground (arith, none_left, sum))))
          | inl some_left ↦
              rw (on, some_left)
                (IsLooped-more i (do_loop left call stream retryable (i + 1)) on
                  (do_loop-IsLooped left (i + 1) (omega arith) (ground (arith, some_left))))
        ]
      ]

-- A failure that asks for a retry, of a request without a body stream that is retryable or met
-- `io.EOF`.
abbrev AsksAgain : Bool → Bool → Attempt → Type 0
AsksAgain stream retryable (retry, none) = ⊥
AsksAgain stream retryable (retry, some e) =
    (retry ≡ true) × (stream ≡ false) × ((retryable ≡ true) ⊎ (e ≡ eof))

-- What comes back for the error of the last call.
abbrev returned : Option DoError → Option DoError
returned none = none
returned (some eof) = some connection_closed
returned (some connection_closed) = some connection_closed
returned (some (other n)) = some (other n)

pub record IsDone (max : ℕ) (call : ℕ → Attempt) (stream : Bool) (retryable : ℕ → Bool) (d : Done)
    : Type 0 where
  pub called : 0 < d.calls
  pub limited : (0 < max → d.calls ≤ max) × (max ≡ 0 → d.calls ≤ 5)
  pub last : d.failure ≡ returned (call (d.calls - 1)).1
  pub before : (j : ℕ) → suc j < d.calls → AsksAgain stream (retryable j) (call j)
  pub stopped :
      AsksAgain stream (retryable (d.calls - 1)) (call (d.calls - 1))
      → (0 < max → d.calls ≡ max) × (max ≡ 0 → d.calls ≡ 5)

goes_on-AsksAgain :
    (stream retryable : Bool) (a : Attempt)
    → goes_on stream retryable a ≡ true
    → AsksAgain stream retryable a
unfolding goes_on is_eof
goes_on-AsksAgain stream retryable (retry, none) e = absurd (ground (arith, e))
goes_on-AsksAgain true retryable (false, some x) e = absurd (ground (arith, e))
goes_on-AsksAgain true retryable (true, some x) e = absurd (ground (arith, e))
goes_on-AsksAgain false retryable (false, some x) e = absurd (ground (arith, e))
goes_on-AsksAgain false true (true, some x) e = (refl, refl, inl refl)
goes_on-AsksAgain false false (true, some eof) e = (refl, refl, inr refl)
goes_on-AsksAgain false false (true, some connection_closed) e = absurd (ground (arith, e))
goes_on-AsksAgain false false (true, some (other n)) e = absurd (ground (arith, e))

AsksAgain-goes_on :
    (stream retryable : Bool) (a : Attempt)
    → AsksAgain stream retryable a
    → goes_on stream retryable a ≡ true
unfolding goes_on is_eof
AsksAgain-goes_on stream retryable (retry, none) v = absurd v
AsksAgain-goes_on stream retryable (retry, some e) (again, plain, inl may) =
    rw (again, plain, may) refl
AsksAgain-goes_on stream retryable (retry, some e) (again, plain, inr met) =
    rw (again, plain, met) (ground arith)

close_error_lem : (e : Option DoError) → close_error e ≡ returned e
unfolding close_error is_eof
close_error_lem none = refl
close_error_lem (some eof) = refl
close_error_lem (some connection_closed) = refl
close_error_lem (some (other n)) = refl

-- `Do` calls `do` at least once and at most `MaxIdemponentCallAttempts` times, or 5 times if that is
-- 0. It calls again only behind a call that failed and asked for a retry, of a request that has no
-- body stream and that is retryable behind this call, or met `io.EOF`; behind a last call of that
-- kind the limit is reached. It returns the error of the last call, with `ErrConnectionClosed` for
-- `io.EOF`.
pub do_request-IsDone :
    (max : ℕ) (call : ℕ → Attempt) (stream : Bool) (retryable : ℕ → Bool)
    → IsDone max call stream retryable (do_request max call stream retryable)
unfolding do_request attempts_limit
do_request-IsDone max call stream retryable =
    let pos : 0 < attempts_limit max = ground arith in
    let d = do_loop (attempts_limit max) call stream retryable 0 in
    let v =
      do_loop-IsLooped (attempts_limit max) call stream retryable (attempts_limit max) 0
        (omega arith) pos in
    record {
      called = v.called;
      limited = (λ p. ground (arith, v.limited, p), λ z. ground (arith, v.limited, z));
      last = ap close_error v.last ∙ close_error_lem (call (d.calls - 1)).1;
      before =
          λ j lt. goes_on-AsksAgain stream (retryable j) (call j) (v.before j (omega arith) lt);
      stopped = λ asks. elim v.stopped [
        | inl final ↦ absurd (
            ground (
              arith,
              final,
              AsksAgain-goes_on stream (retryable (d.calls - 1)) (call (d.calls - 1)) asks,
            ))
        | inr full ↦ (λ p. ground (arith, full, p), λ z. ground (arith, full, z))
      ];
    }
