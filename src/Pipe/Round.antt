-- ===== src/Pipe/Round.antt =====
-- The calls of `Write` and `Read` on a half of a pipe.
use justhttp.Base.{
  ℕ, zero, suc, ◌+◌, ◌-◌, ◌≤◌, ◌<◌, ◌≡◌, refl, sym, ap, ◌∙◌, ◌⊎◌, inl, inr, Bool, true, false, none,
  some, List, [], ◌∷◌, ◌++◌, append-nil, append_assoc, arith, ltb, ◌==◌, if◌then◌else◌, Bool-cases,
  length, take, drop, length-append, take-append-drop, length-take, Bytes, Result, ok, err,
}
use justhttp.Pipe.{
  Half, PipeError, would_block, write, read_next, copy_out, read_one, PipeRead, failure_of,
  read_loop,
}

abbrev pub joined : List Bytes → Bytes
joined [] = []
joined (p ∷ ch) = p ++ joined ch

-- The bytes that are written and not read yet.
abbrev pub pending : Half → Bytes
pending h = h.bb ++ joined h.ch

joined-append : (ch : List Bytes) (p : Bytes) → joined (ch ++ p ∷ []) ≡ joined ch ++ p
joined-append [] p = append-nil p
joined-append (q ∷ ch) p =
    ap (λ t. q ++ t) (joined-append ch p) ∙ sym (append_assoc q (joined ch) p)

-- What is written comes behind what is pending.
abbrev pub Behind : Half → Bytes → Result PipeError Half → Type 0
Behind h p (ok h') = pending h' ≡ pending h ++ p
Behind h p (err e) = Unit

pub write-Behind :
    (wake : PipeError) (stopped : Bool) (h : Half) (p : Bytes) → Behind h p (write wake stopped h p)
unfolding write
write-Behind wake stopped h p = elim (Bool-cases stopped) [
  | inl over ↦ rw over tt
  | inr going ↦ elim (Bool-cases (ltb (length h.ch) 4)) [
    | inr full ↦ rw (going, full) tt
    | inl room ↦
        rw (going, room)
          (ap (λ t. h.bb ++ t) (joined-append h.ch p) ∙ sym (append_assoc h.bb (joined h.ch) p))
  ]
]

copy_out-pending :
    (n : ℕ) (h : Half)
    → ((copy_out n h).0 ++ pending (copy_out n h).1 ≡ pending h) × (length (copy_out n h).0 ≤ n)
unfolding copy_out
copy_out-pending n h = (
  sym (append_assoc (take n h.bb) (drop n h.bb) (joined h.ch))
      ∙ ap (λ t. t ++ joined h.ch) (take-append-drop n h.bb),
  ground (arith, length-take n h.bb),
)

-- A round of the loop of `Read`.
abbrev IsRound : PipeError → Bool → ℕ → Half → Result PipeError (Bytes × Half) → Type 0
IsRound wake may_block n h (ok t) =
    (t.0 ++ pending t.1 ≡ pending h)
    × (length t.0 ≤ n)
    × ((n - length t.0) + length t.1.ch < n + length h.ch)
IsRound wake may_block n h (err e) =
    (pending h ≡ []) × (e ≡ (if may_block then wake else would_block))

read_one-IsRound :
    (wake : PipeError) (may_block : Bool) (n : ℕ) (ch : List Bytes) (bb : Bytes)
    → 0 < n
    → IsRound wake may_block n
        (record { ch = ch; bb = bb })
        (read_one wake may_block n (record { ch = ch; bb = bb }))
unfolding read_one read_next copy_out
read_one-IsRound wake true n [] [] pos = (refl, refl)
read_one-IsRound wake false n [] [] pos = (refl, refl)
read_one-IsRound wake may_block n (p ∷ ch) [] pos =
    let (ordered, fits) = copy_out-pending n (record { ch = ch; bb = p }) in
    (ordered, fits, omega arith)
read_one-IsRound wake may_block n ch (c ∷ bb) pos =
    let (ordered, fits) = copy_out-pending n (record { ch = ch; bb = c ∷ bb }) in
    (ordered, fits, ground (arith, length-take n (c ∷ bb), pos))

-- What a read does to the bytes that are pending: those that come out stood in front, and they are
-- as many as were asked for, or all; an error is what has woken up the call, where nothing was
-- pending and nothing comes out.
pub record IsRead (wake : PipeError) (n : ℕ) (h : Half) (r : PipeRead) : Type 0 where
  pub ordered : r.out ++ pending r.half ≡ pending h
  pub fits : length r.out ≤ n
  pub filled : (length r.out ≡ n) ⊎ (pending r.half ≡ [])
  pub fails_empty :
      (e : PipeError) → r.failure ≡ some e → (e ≡ wake) × (r.out ≡ []) × (pending h ≡ [])

IsRead-none :
    (wake : PipeError) (h : Half) → IsRead wake 0 h (record { half = h; out = []; failure = none })
IsRead-none wake h = record {
  ordered = refl;
  fits = omega arith;
  filled = inl refl;
  fails_empty = λ e f. absurd (ground (arith, f));
}

-- A round in front of the others, which do not fail.
IsRead-round :
    (wake : PipeError) (n : ℕ) (h h' : Half) (out : Bytes) (more : PipeRead)
    → out ++ pending h' ≡ pending h
    → length out ≤ n
    → IsRead wake (n - length out) h' more
    → more.failure ≡ none
    → IsRead wake n h (record more { out = out ++ more.out })
IsRead-round wake n h h' out more ordered fits v fine = record {
  ordered = append_assoc out more.out (pending more.half) ∙ ap (λ t. out ++ t) v.ordered ∙ ordered;
  fits = omega (arith, fits, v.fits, length-append out more.out);
  filled = elim v.filled [
    | inl full ↦ inl (omega (arith, full, fits, length-append out more.out))
    | inr drained ↦ inr drained
  ];
  fails_empty = λ e f. absurd (ground (arith, f, fine));
}

-- What the loop returns after a round.
abbrev after_round : ℕ → PipeError → Bool → ℕ → Half → Result PipeError (Bytes × Half) → PipeRead
after_round rounds wake may_block n h (err e) = record {
  half = h;
  out = [];
  failure = failure_of may_block e;
}
after_round rounds wake may_block n h (ok t) =
    let more = read_loop rounds wake false (n - length t.0) t.1 in
    record more { out = t.0 ++ more.out }

-- The loop keeps the order, and fails in the first round only.
abbrev Reads : PipeError → Bool → ℕ → Half → PipeRead → Type 0
Reads wake may_block n h r = IsRead wake n h r × (may_block ≡ false → r.failure ≡ none)

some_inj : {e x : PipeError} → some e ≡ some x → e ≡ x
some_inj f = cc

after_round-Reads :
    (rounds : ℕ) (wake : PipeError) (may_block : Bool) (n : ℕ) (h : Half)
    (r : Result PipeError (Bytes × Half))
    → n + length h.ch < suc rounds
    → IsRound wake may_block n h r
    → ((m : ℕ) (t : Half)
        → m + length t.ch < rounds
        → Reads wake false m t (read_loop rounds wake false m t))
    → Reads wake may_block n h (after_round rounds wake may_block n h r)
unfolding failure_of
after_round-Reads rounds wake true n h (err e) fuel (empty, kind) later = (
  record {
    ordered = refl;
    fits = omega arith;
    filled = inr empty;
    fails_empty = λ x f. (sym (some_inj f) ∙ kind, refl, empty);
  },
  λ still. absurd (ground (arith, still)),
)
after_round-Reads rounds wake false n h (err e) fuel (empty, kind) later =
    let silent : failure_of false e ≡ none = rw kind refl in
    (
      record {
        ordered = refl;
        fits = omega arith;
        filled = inr empty;
        fails_empty = λ x f. absurd (ground (arith, silent, f));
      },
      λ still. silent,
    )
after_round-Reads rounds wake may_block n h (ok t) fuel (ordered, fits, less) later =
    let (v, fine) = later (n - length t.0) t.1 (omega arith) in
    (
      IsRead-round wake n h t.1 t.0 (read_loop rounds wake false (n - length t.0) t.1) ordered fits
          v (fine refl),
      λ e. fine refl,
    )

pub read_loop-Reads :
    (rounds : ℕ) (wake : PipeError) (may_block : Bool) (n : ℕ) (h : Half)
    → n + length h.ch < rounds
    → Reads wake may_block n h (read_loop rounds wake may_block n h)
unfolding read_loop
read_loop-Reads zero wake may_block n h fuel = absurd (omega arith)
read_loop-Reads (suc rounds) wake may_block zero h fuel = (IsRead-none wake h, λ e. refl)
read_loop-Reads (suc rounds) wake may_block (suc n) h fuel =
    let positive : (suc n == 0) ≡ false = ground arith in
    rw positive (
      after_round-Reads rounds wake may_block (suc n) h (read_one wake may_block (suc n) h) fuel
        (read_one-IsRound wake may_block (suc n) h.ch h.bb (omega arith))
        (λ m t less. read_loop-Reads rounds wake false m t less))
