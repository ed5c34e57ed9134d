-- ===== src/Uri/Path/Loops.antt =====
-- What each loop of `normalizePath` leaves, and that it ends.
use justhttp.Base.{
  ℕ, zero, suc, ◌<◌, ◌≡◌, refl, sym, ap, inl, inr, false, Option, some, [], ◌∷◌, ◌++◌, append_assoc,
  arith, Bool-cases, Option-cases, length, take, length-append, Bytes, codes,
}
use mathlib.Core.Path.{subst}
use justhttp.Base.Search.{has_prefix, index}
use justhttp.Base.Search.Found.{Free, index-Free}
use justhttp.Uri.Path.{remove_duplicate_slashes, remove_dots, remove_dot_dots}
use justhttp.Uri.Path.Slashes.{StartsSlash, Free-join2}
use justhttp.Uri.Path.Steps.{
  StartsSlash-Joined, Free-Joined2, Free-Joined3, Joined-dot, Joined-dot_dot, split_slashes,
}

-- A loop that ends, with a text that has the property.
abbrev pub Ends : Option Bytes → (Bytes → Type 0) → Type 0
Ends o P = (out : Bytes) × (o ≡ some out) × P out

pub remove_dots-Ends :
    (rounds : ℕ) (b : Bytes)
    → length b < rounds
    → StartsSlash b
    → Free (codes "//") b
    → Ends
        (remove_dots rounds b)
        (λ out. StartsSlash out × Free (codes "//") out × Free (codes "/./") out)
unfolding remove_dots
remove_dots-Ends zero b fuel starts single = absurd (omega arith)
remove_dots-Ends (suc rounds) b fuel starts single = elim (Option-cases (index (codes "/./") b)) [
  | inl nowhere ↦
      (b, rw (remove_dots, nowhere) refl, (starts, single, index-Free (codes "/./") b nowhere))
  | inr (n, found) ↦
      let (j, shorter) = Joined-dot b n found in
      let (out, e, rest) =
        remove_dots-Ends rounds _ (omega (arith, shorter, fuel)) (StartsSlash-Joined j starts)
          (Free-Joined2 j single) in
      (out, rw (remove_dots, found) e, rest)
]

pub remove_dot_dots-Ends :
    (rounds : ℕ) (b : Bytes)
    → length b < rounds
    → StartsSlash b
    → Free (codes "//") b
    → Free (codes "/./") b
    → Ends (remove_dot_dots rounds b) (λ out.
      StartsSlash out × Free (codes "//") out × Free (codes "/./") out × Free (codes "/../") out)
unfolding remove_dot_dots
remove_dot_dots-Ends zero b fuel starts single undotted = absurd (omega arith)
remove_dot_dots-Ends (suc rounds) b fuel starts single undotted =
    elim (Option-cases (index (codes "/../") b)) [
      | inl nowhere ↦ (
        b,
        rw (remove_dot_dots, nowhere) refl,
        (starts, single, undotted, index-Free (codes "/../") b nowhere),
      )
      | inr (n, found) ↦
          let (j, shorter) = Joined-dot_dot b n starts found in
          let (out, e, rest) =
            remove_dot_dots-Ends rounds _ (omega (arith, shorter, fuel))
              (StartsSlash-Joined j starts) (Free-Joined2 j single) (Free-Joined3 j undotted) in
          (out, rw (remove_dot_dots, found) e, rest)
    ]

-- The byte before the first double slash is no slash.
no_slash_before :
    (c d : ℕ) (s : Bytes) (i : ℕ)
    → has_prefix (codes "//") (c ∷ d ∷ s) ≡ false
    → index (codes "//") (d ∷ s) ≡ some i
    → has_prefix (codes "//") (c ∷ (take i (d ∷ s) ++ b'/' ∷ [])) ≡ false
unfolding has_prefix
no_slash_before c d s zero absent found =
    let (rest, e, k) = split_slashes (d ∷ s) 0 found in ground (arith, absent, e)
no_slash_before c d s (suc i) absent found = ground (arith, absent)

-- In front of the first double slash there is none, with a slash behind.
before_first :
    (s : Bytes) (n : ℕ) → index (codes "//") s ≡ some n → Free (codes "//") (take n s ++ b'/' ∷ [])
unfolding index has_prefix
before_first [] n h = cc
before_first (c ∷ []) n h = ground arith
before_first (c ∷ d ∷ s) n h = elim (Bool-cases (has_prefix (codes "//") (c ∷ d ∷ s))) [
  | inl here ↦ let e : 0 ≡ n = ground (arith, here, h) in rw (← e) (refl, refl)
  | inr absent ↦ (elim (Option-cases (index (codes "//") (d ∷ s))) [
    | inl nowhere ↦ absurd (ground (arith, absent, nowhere, h))
    | inr (i, found) ↦
        let e : suc i ≡ n = ground (arith, absent, found, h) in
        rw (← e) (no_slash_before c d s i absent found, before_first (d ∷ s) i found)
  ])
]

-- What stands before `b` in the first loop: nothing, or a text with no double slash, also before
-- the slash that `b` begins with.
abbrev pub Behind : Bytes → Bytes → Type 0
Behind [] b = Unit
Behind (c ∷ done) b = Free (codes "//") (c ∷ done ++ b'/' ∷ []) × StartsSlash b

Behind-all : (done b : Bytes) → Behind done b → Free (codes "//") b → Free (codes "//") (done ++ b)
Behind-all [] b h k = k
Behind-all (c ∷ done) b (h, (r, e)) k = rw e (Free-join2 (c ∷ done) [] r h (rw e at k))

-- A round of the first loop.
Behind-next :
    (done q r : Bytes)
    → Behind done (q ++ b'/' ∷ b'/' ∷ r)
    → Free (codes "//") (q ++ b'/' ∷ [])
    → Free (codes "//") ((done ++ q) ++ b'/' ∷ [])
Behind-next [] q r h k = k
Behind-next (c ∷ done) q r (h, (x, e)) k =
    subst (Free (codes "//")) (sym (append_assoc (c ∷ done) q (b'/' ∷ []))) (after q e k)
  where
    after :
        (q : Bytes)
        → q ++ b'/' ∷ b'/' ∷ r ≡ b'/' ∷ x
        → Free (codes "//") (q ++ b'/' ∷ [])
        → Free (codes "//") ((c ∷ done) ++ (q ++ b'/' ∷ []))
    after [] e k = h
    after (d ∷ q) e k =
        let same : d ≡ b'/' = ground (arith, e) in
        rw same (Free-join2 (c ∷ done) [] (q ++ b'/' ∷ []) h (rw same at k))

Behind-shift :
    (done q r : Bytes)
    → Behind done (q ++ b'/' ∷ b'/' ∷ r)
    → Free (codes "//") (q ++ b'/' ∷ [])
    → Behind (done ++ q) (b'/' ∷ r)
Behind-shift [] [] r h k = tt
Behind-shift [] (d ∷ q) r h k = (k, (r, refl))
Behind-shift (c ∷ done) q r h k = (Behind-next (c ∷ done) q r h k, (r, refl))

StartsSlash-shift :
    (done q r : Bytes)
    → StartsSlash (done ++ (q ++ b'/' ∷ b'/' ∷ r))
    → StartsSlash ((done ++ q) ++ b'/' ∷ r)
StartsSlash-shift [] [] r h = (r, refl)
StartsSlash-shift [] (d ∷ q) r (x, e) = (q ++ b'/' ∷ r, ground arith)
StartsSlash-shift (c ∷ done) q r (x, e) = ((done ++ q) ++ b'/' ∷ r, ground arith)

shorter :
    {rounds : ℕ} (b : Bytes) (n : ℕ) (r : Bytes)
    → b ≡ take n b ++ b'/' ∷ b'/' ∷ r
    → length b < suc rounds
    → length (b'/' ∷ r) < rounds
shorter b n r e fuel = omega (arith, fuel, ap length e, length-append (take n b) (b'/' ∷ b'/' ∷ r))

pub remove_duplicate_slashes-Ends :
    (rounds : ℕ) (done b : Bytes)
    → length b < rounds
    → StartsSlash (done ++ b)
    → Behind done b
    → Ends (remove_duplicate_slashes rounds done b) (λ out. StartsSlash out × Free (codes "//") out)
unfolding remove_duplicate_slashes
remove_duplicate_slashes-Ends zero done b fuel starts behind = absurd (omega arith)
remove_duplicate_slashes-Ends (suc rounds) done b fuel starts behind =
    elim (Option-cases (index (codes "//") b)) [
      | inl nowhere ↦ (
        done ++ b,
        rw (remove_duplicate_slashes, nowhere) refl,
        (starts, Behind-all done b behind (index-Free (codes "//") b nowhere)),
      )
      | inr (n, found) ↦
          let (r, splits, dropped) = split_slashes b n found in
          let (out, e, rest) =
            remove_duplicate_slashes-Ends rounds (done ++ take n b) (b'/' ∷ r)
              (shorter b n r splits fuel)
              (StartsSlash-shift done (take n b) r
                (subst (λ t. StartsSlash (done ++ t)) splits starts))
              (Behind-shift done (take n b) r (subst (Behind done) splits behind)
                (before_first b n found)) in
          (out, rw (remove_duplicate_slashes, found, dropped) e, rest)
    ]
