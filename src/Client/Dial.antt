-- ===== src/Client/Dial.antt =====
-- The addresses of a `HostClient`: `nextAddr` and `dialHostHard` of client.go.
use justhttp.Base.{
  ℕ, zero, suc, ◌+◌, ◌%◌, ◌^◌, ◌<◌, ◌≡◌, refl, Bool, false, Option, none, some, List, [], ◌∷◌,
  arith, ltb, ◌==◌, if◌then◌else◌, lt→ltb, length, get_elem?, Bytes,
}

-- `strings.Split(s, ",")`.
unfoldable pub split_comma : Bytes → List Bytes
split_comma [] = [] ∷ []
split_comma (c ∷ s) =
    if c == b','
    then [] ∷ split_comma s
    else (elim (split_comma s) [ [] ↦ (c ∷ []) ∷ [] | part ∷ parts ↦ (c ∷ part) ∷ parts ])

-- `addrs` is `none` before the first call. `addr_idx` has 32 bits.
pub record Addrs : Type 0 where
  pub addr : Bytes
  pub addrs : Option (List Bytes)
  pub addr_idx : ℕ

abbrev pub addrs_of : Addrs → List Bytes
addrs_of a = elim a.addrs [ none ↦ split_comma a.addr | some addrs ↦ addrs ]

-- `nextAddr`; `none` is an index out of range.
unfoldable pub next_addr : Addrs → Option (Addrs × Bytes)
unfolding split_comma
next_addr a =
    let several = ltb 1 (length (addrs_of a)) in
    let i = if several then a.addr_idx % length (addrs_of a) else 0 in
    elim (get_elem? (addrs_of a) i) [
      | none ↦ none
      | some addr ↦ some (
        record a {
          addrs = some (addrs_of a);
          addr_idx = if several then (a.addr_idx + 1) % 2 ^ 32 else a.addr_idx;
        },
        addr,
      )
    ]

-- The address that was dialed at last with success, if any, and all that were tried.
pub record Dialed : Type 0 where
  pub state : Addrs
  pub success : Option Bytes
  pub tried : List Bytes

abbrev pub tried_first : Bytes → Option Dialed → Option Dialed
tried_first addr none = none
tried_first addr (some d) = some (record d { tried = addr ∷ d.tried })

-- `dials i addr` tells whether the dialing of round `i` works, `late i` whether the deadline is over
-- behind it.
module _ (dials : ℕ → Bytes → Bool) (late : ℕ → Bool) where
  -- The loop of `dialHostHard`, with `n` and the round; `none` is a panic.
  unfoldable pub dial_loop : ℕ → ℕ → Addrs → Option Dialed
  unfolding next_addr
  dial_loop zero i a = some (record { state = a; success = none; tried = [] })
  dial_loop (suc n) i a = elim (next_addr a) [
    | none ↦ none
    | some (a', addr) ↦
        let rest = tried_first addr (dial_loop n (i + 1) a') in
        if dials i addr
        then some (record { state = a'; success = some addr; tried = addr ∷ [] })
        else if late i
        then some (record { state = a'; success = none; tried = addr ∷ [] })
        else rest
  ]

  -- `dialHostHard`.
  unfoldable pub dial_host_hard : Addrs → Option Dialed
  unfolding dial_loop
  dial_host_hard a =
      let n : ℕ = elim a.addrs [ none ↦ 0 | some addrs ↦ length addrs ] in
      dial_loop (if n == 0 then 1 else n) 0 a

-- Address number `k` of the round behind `i` others.
abbrev pub Rotated : List Bytes → ℕ → List Bytes → Type 0
Rotated addrs k [] = Unit
Rotated addrs k (t ∷ tried) =
    (get_elem? addrs (k % length addrs) ≡ some t) × Rotated addrs (k + 1) tried

-- A dialing that fails with every address tries as many as there are, one behind the other.
abbrev pub TriesAll : List Bytes → ℕ → ℕ → Option Dialed → Type 0
TriesAll addrs k n none = ⊥
TriesAll addrs k n (some d) = (d.success ≡ none) × (length d.tried ≡ n) × Rotated addrs k d.tried

get_elem?-some {ℓ} :
    {A : Type ℓ} (xs : List A) (i : ℕ) → i < length xs → (x : A) × (get_elem? xs i ≡ some x)
get_elem?-some [] i h = absurd (omega arith)
get_elem?-some (x ∷ xs) zero h = (x, refl)
get_elem?-some (x ∷ xs) (suc i) h = get_elem?-some xs i (omega arith)

mod_lt : (k n : ℕ) → 1 < n → k % n < n
mod_lt k n h = grind arith

TriesAll-first :
    (addrs : List Bytes) (k n : ℕ) (t : Bytes) (o : Option Dialed)
    → get_elem? addrs (k % length addrs) ≡ some t
    → TriesAll addrs (k + 1) n o
    → TriesAll addrs k (suc n) (tried_first t o)
TriesAll-first addrs k n t none e v = v
TriesAll-first addrs k n t (some d) e (fails, len, rot) = (fails, omega arith, (e, rot))

-- The addresses are known, and the next is the numbered one.
abbrev pub known : Bytes → List Bytes → ℕ → Addrs
known addr addrs k = record { addr = addr; addrs = some addrs; addr_idx = k }

next_addr-known :
    (addr : Bytes) (addrs : List Bytes) (k : ℕ) (t : Bytes)
    → 1 < length addrs
    → k + 1 < 2 ^ 32
    → get_elem? addrs (k % length addrs) ≡ some t
    → next_addr (known addr addrs k) ≡ some (known addr addrs (k + 1), t)
unfolding next_addr
next_addr-known addr addrs k t several fits here =
    let wraps : (k + 1) % 2 ^ 32 ≡ k + 1 = omega arith in
    let more = lt→ltb 1 (length addrs) several in rw (more, here, wraps) (rw more refl)

module _ (dials : ℕ → Bytes → Bool) (late : ℕ → Bool)
    (fails : (i : ℕ) (addr : Bytes) → dials i addr ≡ false) (in_time : (i : ℕ) → late i ≡ false)
    (addr : Bytes) (addrs : List Bytes) (several : 1 < length addrs) where
  dial_loop-TriesAll :
      (n i k : ℕ)
      → k + n < 2 ^ 32
      → TriesAll addrs k n (dial_loop dials late n i (known addr addrs k))
  unfolding dial_loop
  dial_loop-TriesAll zero i k fits = (refl, refl, tt)
  dial_loop-TriesAll (suc n) i k fits =
      let (t, here) = get_elem?-some addrs (k % length addrs) (mod_lt k (length addrs) several) in
      rw (dial_loop, next_addr-known addr addrs k t several (omega arith) here)
        (rw (fails i t, in_time i)
          (TriesAll-first addrs k n t (dial_loop dials late n (i + 1) (known addr addrs (k + 1)))
            here (dial_loop-TriesAll n (i + 1) (k + 1) (omega arith))))

-- If no dialing works and the deadline is not over, `dialHostHard` of a client with several known
-- addresses tries as many of them as there are, from `addrIdx` on and around, unless `addrIdx`
-- comes to its bound meanwhile; it gives no connection and does not panic.
pub dial_host_hard-TriesAll :
    (dials : ℕ → Bytes → Bool) (late : ℕ → Bool) (addr : Bytes) (addrs : List Bytes) (k : ℕ)
    → ((i : ℕ) (addr : Bytes) → dials i addr ≡ false)
    → ((i : ℕ) → late i ≡ false)
    → 1 < length addrs
    → k + length addrs < 2 ^ 32
    → TriesAll addrs k (length addrs) (dial_host_hard dials late (known addr addrs k))
unfolding dial_host_hard
dial_host_hard-TriesAll dials late addr addrs k fails in_time several fits =
    let some_known : (length addrs == 0) ≡ false = ground arith in
    rw some_known
      (dial_loop-TriesAll dials late fails in_time addr addrs several (length addrs) 0 k fits)
