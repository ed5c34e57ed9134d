-- ===== src/Header/Value/Laws.antt =====
-- What the functions on header values do, told without their indices.
use justhttp.Base.{
  ℕ, zero, suc, ◌+◌, ◌≤◌, ◌<◌, ◌≡◌, refl, sym, ap, ◌≢◌, inl, inr, Bool, false, ◌||◌, Option, none,
  some, List, [], ◌∷◌, ◌++◌, map, arith, ltb, ◌==◌, if◌then◌else◌, ltb→lt, Bool-cases, Option-cases,
  length, take, drop, Bytes, Lacks, index_byte, index_byte-none,
}
use justhttp.Args.Scanner.Cut.{
  split, cut_at, rest_of, split-cut_at, parts_from, length-rest_of-cut_at,
}
use justhttp.Cookie.Parse.{case_insensitive_compare}
use justhttp.Header.Value.{
  is_line_end, blank_new_lines, remove_new_lines, strip_space, next_value, has_value_loop,
  has_header_value,
}

abbrev pub blank : ℕ → ℕ
blank c = if is_line_end c then b' ' else c

blank_new_lines-map : (b : Bytes) → blank_new_lines b ≡ map blank b
unfolding blank_new_lines
blank_new_lines-map [] = refl
blank_new_lines-map (c ∷ b) = ap (◌∷◌ (blank c)) (blank_new_lines-map b)

-- The bytes before the first `c` and the first `d`.
index_byte-before : (s : Bytes) (c n : ℕ) → index_byte s c ≡ some n → Lacks c (take n s)
unfolding index_byte
index_byte-before [] c n h = cc
index_byte-before (x ∷ s) c n h = elim (Bool-cases (x == c)) [
  | inl here ↦ let e : 0 ≡ n = ground (arith, here, h) in rw (← e) tt
  | inr off ↦ (elim (Option-cases (index_byte s c)) [
    | inl nowhere ↦ absurd (ground (arith, off, nowhere, h))
    | inr (i, found) ↦
        let e : suc i ≡ n = ground (arith, off, found, h) in
        rw (← e) ((λ same. ground (arith, off, same)), index_byte-before s c i found)
  ])
]

map-blank_same : (s : Bytes) → Lacks b'\r' s → Lacks b'\n' s → map blank s ≡ s
map-blank_same [] hr hn = refl
map-blank_same (c ∷ s) (hc, hr) (hd, hn) = ground (arith, map-blank_same s hr hn)

Lacks-take : (s : Bytes) (c m n : ℕ) → m ≤ n → Lacks c (take n s) → Lacks c (take m s)
Lacks-take [] c zero n h k = tt
Lacks-take [] c (suc m) n h k = tt
Lacks-take (x ∷ s) c zero n h k = tt
Lacks-take (x ∷ s) c (suc m) zero h k = absurd (omega arith)
Lacks-take (x ∷ s) c (suc m) (suc n) h (kx, k) = (kx, Lacks-take s c m n (omega arith) k)

Lacks-take_all : (s : Bytes) (c n : ℕ) → Lacks c s → Lacks c (take n s)
Lacks-take_all [] c zero k = tt
Lacks-take_all [] c (suc n) k = tt
Lacks-take_all (x ∷ s) c zero k = tt
Lacks-take_all (x ∷ s) c (suc n) (kx, k) = (kx, Lacks-take_all s c n k)

map-append_take :
    (s : Bytes) (n : ℕ)
    → Lacks b'\r' (take n s)
    → Lacks b'\n' (take n s)
    → take n s ++ blank_new_lines (drop n s) ≡ map blank s
map-append_take s zero hr hn = blank_new_lines-map s
map-append_take [] (suc n) hr hn = blank_new_lines-map []
map-append_take (x ∷ s) (suc n) (hx, hr) (hy, hn) = ground (arith, map-append_take s n hr hn)

-- `removeNewLines` puts a space for each '\r' and each '\n', and leaves the other bytes.
pub remove_new_lines-map : (raw : Bytes) → remove_new_lines raw ≡ map blank raw
unfolding remove_new_lines
remove_new_lines-map raw = elim (Option-cases (index_byte raw b'\r')) [
  | inl no_r ↦ elim (Option-cases (index_byte raw b'\n')) [
    | inl no_n ↦
        rw (remove_new_lines, no_r, no_n)
          (sym (map-blank_same raw (index_byte-none raw _ no_r) (index_byte-none raw _ no_n)))
    | inr (n, found_n) ↦ rw (remove_new_lines, no_r, found_n) (blank_new_lines-map raw)
  ]
  | inr (r, found_r) ↦ elim (Option-cases (index_byte raw b'\n')) [
    | inl no_n ↦
        rw (remove_new_lines, found_r, no_n)
          (map-append_take raw r (index_byte-before raw _ r found_r)
            (Lacks-take_all raw _ r (index_byte-none raw _ no_n)))
    | inr (n, found_n) ↦
        rw (remove_new_lines, found_r, found_n)
          (elim (Bool-cases (ltb n r)) [
            | inl before ↦ rw before (
                map-append_take raw n
                  (Lacks-take raw _ n r (omega (arith, ltb→lt n r before))
                    (index_byte-before raw _ r found_r))
                  (index_byte-before raw _ n found_n))
            | inr after ↦ rw after (
                map-append_take raw r (index_byte-before raw _ r found_r) (
                  Lacks-take raw _ r n (ground (arith, after)) (index_byte-before raw _ n found_n)))
          ])
  ]
]

-- The parts of the value between the commas, one of which is the value sought.
abbrev pub any_equal : List Bytes → Bytes → Bool
any_equal [] value = false
any_equal (p ∷ ps) value = case_insensitive_compare (strip_space p) value || any_equal ps value

cut_at-index_byte :
    (s : Bytes) (c : ℕ)
    → cut_at c s
      ≡ elim (index_byte s c) [ none ↦ (s, none) | some n ↦ (take n s, some (drop (n + 1) s)) ]
unfolding index_byte
cut_at-index_byte [] c = refl
cut_at-index_byte (x ∷ s) c = elim (Option-cases (index_byte s c)) [
  | inl nowhere ↦ ground (arith, nowhere, cut_at-index_byte s c)
  | inr (n, found) ↦ ground (arith, found, cut_at-index_byte s c)
]

next_value-cut_at :
    (c : ℕ) (b : Bytes)
    → next_value (c ∷ b)
      ≡ some (strip_space (cut_at b',' (c ∷ b)).0, rest_of (cut_at b',' (c ∷ b)).1)
unfolding next_value
next_value-cut_at c b = elim (Option-cases (index_byte (c ∷ b) b',')) [
  | inl nowhere ↦ rw (next_value, nowhere, cut_at-index_byte (c ∷ b) b',') (rw nowhere refl)
  | inr (n, found) ↦ rw (next_value, found, cut_at-index_byte (c ∷ b) b',') (rw found refl)
]

-- What the loop makes of the rest behind a comma.
rest_equal : Option Bytes → Bytes → Bool
rest_equal none value = false
rest_equal (some r) value = any_equal (split b',' r) value

any_equal-parts_from :
    (u : Bytes × Option Bytes) (value : Bytes)
    → any_equal (parts_from b',' u) value
      ≡ (case_insensitive_compare (strip_space u.0) value || rest_equal u.1 value)
unfolding rest_equal
any_equal-parts_from (p, none) value = refl
any_equal-parts_from (p, some r) value = refl

any_equal-nothing : (value : Bytes) → value ≢ [] → any_equal (split b',' []) value ≡ false
unfolding strip_space case_insensitive_compare
any_equal-nothing [] ne = absurd (ne refl)
any_equal-nothing (c ∷ value) ne = refl

any_equal-rest_of :
    (r : Option Bytes) (value : Bytes)
    → value ≢ []
    → any_equal (split b',' (rest_of r)) value ≡ rest_equal r value
unfolding rest_equal
any_equal-rest_of none value ne = any_equal-nothing value ne
any_equal-rest_of (some r) value ne = refl

has_value_loop-any_equal :
    (rounds : ℕ) (s value : Bytes)
    → value ≢ []
    → length s < rounds
    → has_value_loop rounds s value ≡ some (any_equal (split b',' s) value)
unfolding has_value_loop
has_value_loop-any_equal zero s value ne fuel = absurd (omega arith)
has_value_loop-any_equal (suc rounds) [] value ne fuel =
    rw (any_equal-nothing value ne) (unfold next_value in refl)
has_value_loop-any_equal (suc rounds) (c ∷ s) value ne fuel =
    let later =
      has_value_loop-any_equal rounds (rest_of (cut_at b',' (c ∷ s)).1) value ne
        (omega (arith, fuel, length-rest_of-cut_at b',' (c ∷ s))) in
    ground (
      arith,
      next_value-cut_at c s,
      split-cut_at b',' (c ∷ s),
      any_equal-parts_from (cut_at b',' (c ∷ s)) value,
      later,
      any_equal-rest_of (cut_at b',' (c ∷ s)).1 value ne,
    )

-- `hasHeaderValue` finishes, and tells of a value that is not empty whether it is one of the parts
-- between the commas, without their spaces and up to case.
pub has_header_value-any_equal :
    (s value : Bytes)
    → value ≢ []
    → has_header_value s value ≡ some (any_equal (split b',' s) value)
unfolding has_header_value
has_header_value-any_equal s value ne =
    has_value_loop-any_equal (length s + 1) s value ne (omega arith)
