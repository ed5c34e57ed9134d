-- ===== src/Body/Limits.antt =====
-- Reading a body in chunks ends, and keeps to the limit, whatever bytes come.
use justhttp.Base.{ℕ, ◌+◌, ◌^◌, ◌≤◌, ◌<◌, ◌≡◌, false, length, Bytes, Result, ok, err}
use justhttp.Body.{
  BodyError, hex, ended, broken_chunk, body_too_large, panicked, unfinished, exceeds,
}

-- The errors that the code returns.
abbrev pub IsReturned : BodyError → Type 0
IsReturned (hex e) = Unit
IsReturned (ended e) = Unit
IsReturned broken_chunk = Unit
IsReturned body_too_large = Unit
IsReturned panicked = ⊥
IsReturned unfinished = ⊥

-- An error is one of the code's, and a value has a property.
abbrev pub Yields : {A : Type 0} → (A → Type 0) → Result BodyError A → Type 0
Yields P (ok a) = P a
Yields P (err e) = IsReturned e

abbrev AtMost : ℕ → Bytes → Type 0
AtMost n b = length b ≤ n

-- A limit that is low enough.
abbrev IsLimit : ℕ → Type 0
IsLimit max = (0 < max) × (max + 2 ≤ 2 ^ 31)

-- Within the limit.
abbrev Within : ℕ → Bytes × Bytes → Type 0
Within max t = exceeds max (length t.0) ≡ false
