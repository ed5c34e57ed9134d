-- ===== src/Uri/Path/Normal.antt =====
-- The paths that `normalizePath` gives.
use justhttp.Base.{
  ℕ, suc, ◌+◌, ◌≡◌, refl, sym, ap, ◌∙◌, ◌≢◌, inl, inr, Bool, true, false, Option, some, [], ◌∷◌,
  ◌++◌, append_assoc, arith, ◌==◌, if◌then◌else◌, Bool-cases, Option-cases, length, take, drop,
  length-append, take-append-drop, Bytes, codes, ◌>>=◌, index_byte,
}
use mathlib.Core.Path.{subst}
use justhttp.Base.Search.{last_index, last_index_byte}
use justhttp.Base.Search.Found.{Free}
use justhttp.Bytesconv.Quote.{decode_arg_append_no_plus, decode_slow, unchanged}
use justhttp.Uri.Path.{add_leading_slash, cut_parent, remove_trailing, normalize_path}
use justhttp.Uri.Path.Slashes.{
  StartsSlash, StartsSlash-join, Free-join2, Free-join3, Free-join4, last_index_byte-some,
}
use justhttp.Uri.Path.Loops.{
  Ends, remove_duplicate_slashes-Ends, remove_dots-Ends, remove_dot_dots-Ends,
}

-- A path that begins with a slash and has no "//", "/./" or "/../" in it.
abbrev pub IsClean : Bytes → Type 0
IsClean b = StartsSlash b × Free (codes "//") b × Free (codes "/./") b × Free (codes "/../") b

-- A clean path that does not end with "/.." either.
abbrev pub IsNormal : Bytes → Type 0
IsNormal b = IsClean b × ((p : Bytes) → b ≢ p ++ codes "/..")

-- The last byte, or `d`.
abbrev last_byte : Bytes → ℕ → ℕ
last_byte [] d = d
last_byte (c ∷ s) d = last_byte s c

last_byte-append : (q x : Bytes) (d : ℕ) → last_byte (q ++ x) d ≡ last_byte x (last_byte q d)
last_byte-append [] x d = refl
last_byte-append (c ∷ q) x d = last_byte-append q x c

slash_last : (q p : Bytes) → q ++ b'/' ∷ [] ≢ p ++ codes "/.."
slash_last q p e =
    let same : last_byte (q ++ b'/' ∷ []) 0 ≡ last_byte (p ++ codes "/..") 0 =
      ap (λ t. last_byte t 0) e in
    absurd
      (ground (arith, same, last_byte-append q (b'/' ∷ []) 0, last_byte-append p (codes "/..") 0))

IsClean-cut : (q x : Bytes) → IsClean (q ++ b'/' ∷ x) → IsNormal (q ++ b'/' ∷ [])
unfolding justhttp.Base.Search.has_prefix
IsClean-cut q x (starts, h2, h3, h4) = (
  (
    StartsSlash-join q x [] starts,
    Free-join2 q x [] h2 (refl, refl),
    Free-join3 q x [] h3 (refl, refl),
    Free-join4 q x [] h4 (refl, refl),
  ),
  slash_last q,
)

last_index-end : (p : Bytes) → last_index (codes "/..") (p ++ codes "/..") ≡ some (length p)
unfolding last_index justhttp.Base.Search.has_prefix
last_index-end [] = refl
last_index-end (c ∷ p) = rw (last_index, last_index-end p) refl

take_suc : (q x : Bytes) (c : ℕ) → take (length q + 1) (q ++ c ∷ x) ≡ q ++ c ∷ []
take_suc [] x c = refl
take_suc (d ∷ q) x c =
    let e : length (d ∷ q) + 1 ≡ suc (length q + 1) = omega arith in
    rw e (ap (◌∷◌ d) (take_suc q x c))

take-IsNormal :
    (b q x : Bytes) (nn : ℕ)
    → b ≡ q ++ b'/' ∷ x
    → length q ≡ nn
    → IsClean b
    → IsNormal (take (nn + 1) b)
take-IsNormal b q x nn e size clean =
    let cut : take (nn + 1) b ≡ q ++ b'/' ∷ [] = rw (e, ← size) (take_suc q x b'/') in
    subst IsNormal (sym cut) (IsClean-cut q x (subst IsClean e clean))

cut_parent-IsNormal : (b : Bytes) (n : ℕ) → IsClean b → IsNormal (cut_parent b n)
unfolding cut_parent
cut_parent-IsNormal b n clean = elim (Option-cases (last_index_byte (take n b) b'/')) [
  | inl nowhere ↦
      let (x, e) = clean.0 in
      subst IsNormal (sym (rw (cut_parent, nowhere) refl))
        (IsClean-cut [] x (subst IsClean e clean))
  | inr (nn, found) ↦
      let (q, r, e, size) = last_index_byte-some (take n b) b'/' nn found in
      let splits : b ≡ q ++ b'/' ∷ (r ++ drop n b) =
        sym (take-append-drop n b)
        ∙ (ap (λ t. t ++ drop n b) e ∙ append_assoc q (b'/' ∷ r) (drop n b)) in
      subst IsNormal (sym (rw (cut_parent, found) refl))
        (take-IsNormal b q (r ++ drop n b) nn splits size clean)
]

remove_trailing-IsNormal : (b : Bytes) → IsClean b → IsNormal (remove_trailing b)
unfolding remove_trailing
remove_trailing-IsNormal b clean = elim (Option-cases (last_index (codes "/..") b)) [
  | inl nowhere ↦ subst IsNormal (sym (rw (remove_trailing, nowhere) refl)) (
    clean,
    λ p e. absurd (ground (arith, nowhere, ap (last_index (codes "/..")) e, last_index-end p)),
  )
  | inr (n, found) ↦ (elim (Bool-cases (n + 3 == length b)) [
    | inl ends ↦
        subst IsNormal (sym (rw (remove_trailing, found) (rw ends refl)))
          (cut_parent-IsNormal b n clean)
    | inr inside ↦ subst IsNormal (sym (rw (remove_trailing, found) (rw inside refl))) (
      clean,
      λ p e. absurd (
          ground (
            arith,
            found,
            inside,
            ap length e,
            length-append p (codes "/.."),
            ap (last_index (codes "/..")) e,
            last_index-end p,
          )),
    )
  ])
]

StartsSlash-if :
    (t : Bool) (x y : Bytes) → StartsSlash x → StartsSlash y → StartsSlash (if t then x else y)
StartsSlash-if true x y hx hy = hx
StartsSlash-if false x y hx hy = hy

StartsSlash-decode_slow : (s d : Bytes) → StartsSlash (decode_slow unchanged (b'/' ∷ d) s)
unfolding decode_slow
StartsSlash-decode_slow [] d = (d, refl)
StartsSlash-decode_slow (c ∷ []) d = StartsSlash-if (c == b'%') _ _ (_, refl) (_, refl)
StartsSlash-decode_slow (c ∷ h1 ∷ []) d =
    StartsSlash-if (c == b'%') _ _ (_, refl) (StartsSlash-decode_slow (h1 ∷ []) (d ++ c ∷ []))
StartsSlash-decode_slow (c ∷ h1 ∷ h2 ∷ s) d =
    StartsSlash-if (c == b'%') _ _
      (StartsSlash-if _ _ _ (StartsSlash-decode_slow (h1 ∷ h2 ∷ s) (d ++ b'%' ∷ []))
        (StartsSlash-decode_slow s (d ++ _ ∷ [])))
      (StartsSlash-decode_slow (h1 ∷ h2 ∷ s) (d ++ c ∷ []))

StartsSlash-slow : (s : Bytes) → StartsSlash (decode_slow unchanged [] (b'/' ∷ s))
unfolding decode_slow
StartsSlash-slow [] = ([], refl)
StartsSlash-slow (h1 ∷ []) = StartsSlash-decode_slow (h1 ∷ []) []
StartsSlash-slow (h1 ∷ h2 ∷ s) = StartsSlash-decode_slow (h1 ∷ h2 ∷ s) []

StartsSlash-decoded :
    (src : Bytes) → StartsSlash (decode_arg_append_no_plus (add_leading_slash [] src) src)
unfolding decode_arg_append_no_plus add_leading_slash index_byte
StartsSlash-decoded [] = ([], refl)
StartsSlash-decoded (c ∷ src) = elim (Bool-cases (c == b'/')) [
  | inl here ↦
      let e : c ≡ b'/' = ground (arith, here) in
      rw e (StartsSlash-if _ _ _ (src, refl) (StartsSlash-slow src))
  | inr absent ↦
      rw absent (StartsSlash-if _ _ _ (c ∷ src, refl) (StartsSlash-decode_slow (c ∷ src) []))
]

-- `normalizePath` ends on every path, with a path that begins with a slash, has no "//", "/./" or
-- "/../" in it, and does not end with "/..".
pub normalize_path-IsNormal : (src : Bytes) → Ends (normalize_path src) IsNormal
unfolding normalize_path
normalize_path-IsNormal src =
    let dst = decode_arg_append_no_plus (add_leading_slash [] src) src in
    let (a, ea, (starts1, single1)) =
      remove_duplicate_slashes-Ends (length dst + 1) [] dst (omega arith) (StartsSlash-decoded src)
        tt in
    let (b, eb, (starts2, single2, undotted2)) =
      remove_dots-Ends (length a + 1) a (omega arith) starts1 single1 in
    let (c, ec, clean) =
      remove_dot_dots-Ends (length b + 1) b (omega arith) starts2 single2 undotted2 in
    (
      remove_trailing c,
      rw (normalize_path, ea) (rw eb (rw ec refl)),
      remove_trailing-IsNormal c clean,
    )
