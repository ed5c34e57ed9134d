-- ===== src/Base/Search/Found.antt =====
-- What the searches find.
use justhttp.Base.{
  ℕ, suc, ◌≡◌, refl, ap, inl, inr, true, false, none, some, [], ◌∷◌, ◌++◌, arith, Bool-cases,
  Option-cases, length, Bytes,
}
use justhttp.Base.Search.{has_prefix, index}

-- The pattern starts at no place of the text.
abbrev pub Free : Bytes → Bytes → Type 0
Free pat [] = has_prefix pat [] ≡ false
Free pat (c ∷ s) = (has_prefix pat (c ∷ s) ≡ false) × Free pat s

pub index-Free : (pat s : Bytes) → index pat s ≡ none → Free pat s
unfolding index
index-Free pat [] h = ground arith
index-Free pat (c ∷ s) h = ground (arith, index-Free pat s)

pub Free-append : (pat p s : Bytes) → Free pat (p ++ s) → Free pat s
Free-append pat [] s h = h
Free-append pat (c ∷ p) s h = Free-append pat p s h.1

has_prefix-append : (pat s : Bytes) → has_prefix pat s ≡ true → (r : Bytes) × (s ≡ pat ++ r)
unfolding has_prefix
has_prefix-append [] s h = (s, refl)
has_prefix-append (p ∷ ps) [] h = cc
has_prefix-append (p ∷ ps) (c ∷ s) h =
    let (r, e) = has_prefix-append ps s (ground arith) in (r, ground arith)

-- A place where a pattern stands.
pub record Place (pat s : Bytes) (n : ℕ) : Type 0 where
  pub before : Bytes
  pub after : Bytes
  pub splits : s ≡ before ++ (pat ++ after)
  pub size : length before ≡ n

Place-later : {pat s : Bytes} {n : ℕ} (c : ℕ) → Place pat s n → Place pat (c ∷ s) (suc n)
Place-later c p = record {
  before = c ∷ p.before;
  after = p.after;
  splits = ap (◌∷◌ c) p.splits;
  size = ap suc p.size;
}

Place-here : {pat s : Bytes} → has_prefix pat s ≡ true → Place pat s 0
Place-here {pat} {s} h =
    let (r, e) = has_prefix-append pat s h in
    record { before = []; after = r; splits = e; size = refl }

pub index-Place : (pat s : Bytes) (n : ℕ) → index pat s ≡ some n → Place pat s n
unfolding index
index-Place pat [] n h = elim (Bool-cases (has_prefix pat [])) [
  | inl here ↦ let e : 0 ≡ n = ground arith in rw (← e) (Place-here here)
  | inr absent ↦ ground arith
]
index-Place pat (c ∷ s) n h = elim (Bool-cases (has_prefix pat (c ∷ s))) [
  | inl here ↦ let e : 0 ≡ n = ground arith in rw (← e) (Place-here here)
  | inr absent ↦ elim (Option-cases (index pat s)) [
    | inl nowhere ↦ ground arith
    | inr (i, found) ↦
        let e : suc i ≡ n = ground (arith, absent, found, h) in
        rw (← e) (Place-later c (index-Place pat s i found))
  ]
]
