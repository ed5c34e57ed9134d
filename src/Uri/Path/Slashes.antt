-- ===== src/Uri/Path/Slashes.antt =====
-- Texts that are cut at a slash and joined again.
use justhttp.Base.{
  ℕ, zero, suc, ◌+◌, ◌≡◌, refl, sym, ap, inl, inr, some, List, [], ◌∷◌, ◌++◌, arith, Option-cases,
  length, drop, Bytes, codes,
}
use justhttp.Base.Search.{has_prefix, last_index_byte}
use justhttp.Base.Search.Found.{Free}

-- A text that begins with a slash.
abbrev pub StartsSlash : Bytes → Type 0
StartsSlash s = (r : Bytes) × (s ≡ b'/' ∷ r)

pub StartsSlash-join : (q x y : Bytes) → StartsSlash (q ++ b'/' ∷ x) → StartsSlash (q ++ b'/' ∷ y)
StartsSlash-join [] x y h = (y, refl)
StartsSlash-join (c ∷ q) x y (r, e) = (q ++ b'/' ∷ y, ground arith)

-- What stands before a slash does not see what stands behind it: none of these patterns has a slash
-- other than its first and its last byte.
pub Free-join2 :
    (q x y : Bytes)
    → Free (codes "//") (q ++ b'/' ∷ x)
    → Free (codes "//") (b'/' ∷ y)
    → Free (codes "//") (q ++ b'/' ∷ y)
unfolding has_prefix
Free-join2 [] x y h k = k
Free-join2 (c ∷ []) x y h k = (h.0, k)
Free-join2 (c ∷ d ∷ q) x y h k = (h.0, Free-join2 (d ∷ q) x y h.1 k)

pub Free-join3 :
    (q x y : Bytes)
    → Free (codes "/./") (q ++ b'/' ∷ x)
    → Free (codes "/./") (b'/' ∷ y)
    → Free (codes "/./") (q ++ b'/' ∷ y)
unfolding has_prefix
Free-join3 [] x y h k = k
Free-join3 (c ∷ []) x y h k = (ground arith, k)
Free-join3 (c ∷ d ∷ []) x y h k = (ground arith, Free-join3 (d ∷ []) x y h.1 k)
Free-join3 (c ∷ d ∷ e ∷ q) x y h k = (h.0, Free-join3 (d ∷ e ∷ q) x y h.1 k)

pub Free-join4 :
    (q x y : Bytes)
    → Free (codes "/../") (q ++ b'/' ∷ x)
    → Free (codes "/../") (b'/' ∷ y)
    → Free (codes "/../") (q ++ b'/' ∷ y)
unfolding has_prefix
Free-join4 [] x y h k = k
Free-join4 (c ∷ []) x y h k = (ground arith, k)
Free-join4 (c ∷ d ∷ []) x y h k = (ground arith, Free-join4 (d ∷ []) x y h.1 k)
Free-join4 (c ∷ d ∷ e ∷ []) x y h k = (ground arith, Free-join4 (d ∷ e ∷ []) x y h.1 k)
Free-join4 (c ∷ d ∷ e ∷ f ∷ q) x y h k = (h.0, Free-join4 (d ∷ e ∷ f ∷ q) x y h.1 k)

-- The text before the last slash.
pub last_index_byte-some :
    (p : Bytes) (b n : ℕ)
    → last_index_byte p b ≡ some n
    → (q : Bytes) × (r : Bytes) × (p ≡ q ++ b ∷ r) × (length q ≡ n)
unfolding last_index_byte
last_index_byte-some [] b n h = cc
last_index_byte-some (c ∷ p) b n h = elim (Option-cases (last_index_byte p b)) [
  | inl nowhere ↦ ([], p, ground (arith, nowhere, h), ground (arith, nowhere, h))
  | inr (i, found) ↦
      let (q, r, e, s) = last_index_byte-some p b i found in
      (c ∷ q, r, ap (◌∷◌ c) e, ground (arith, found, h, s))
]

drop-nil {ℓ} : {A : Type ℓ} (k : ℕ) → drop {A = A} k [] ≡ []
drop-nil zero = refl
drop-nil (suc k) = refl

pub drop-add {ℓ} : {A : Type ℓ} (n k : ℕ) (b : List A) → drop (n + k) b ≡ drop k (drop n b)
drop-add zero k b = let e : 0 + k ≡ k = omega arith in rw e
drop-add (suc n) k [] = let e : suc n + k ≡ suc (n + k) = omega arith in rw e (sym (drop-nil k))
drop-add (suc n) k (x ∷ b) = let e : suc n + k ≡ suc (n + k) = omega arith in rw e (drop-add n k b)

pub drop-length {ℓ} : {A : Type ℓ} (p x : List A) → drop (length p) (p ++ x) ≡ x
drop-length [] x = refl
drop-length (c ∷ p) x = drop-length p x
