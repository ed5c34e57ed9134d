-- ===== src/Body/Growth.antt =====
-- How the buffers of bodies grow.
use justhttp.Base.{
  ℕ, zero, suc, ◌+◌, ◌*◌, ◌/◌, ◌%◌, ◌^◌, ◌≤◌, ◌<◌, ◌≡◌, refl, ◌⊎◌, inl, inr, Bool, true, ◌&&◌, ◌||◌,
  arith, ltb, ◌==◌, ==_iff, Bool-cases,
}
use justhttp.Base.Words.{le_bit_or, bit_or-lt, two_to}
use justhttp.Body.{smear, round2, exceeds, grows}

smear-bounds : (d x : ℕ) → x / d ≤ x → x < two_to 31 → (x ≤ smear d x) × (smear d x < two_to 31)
unfolding smear
smear-bounds d x less h = (le_bit_or x (x / d), bit_or-lt 31 x (x / d) h (omega arith))

-- `round2` gives enough up to 2 to the 31.
pub le-round2 : (n : ℕ) → n ≤ 2 ^ 31 → n ≤ round2 n
unfolding round2
le-round2 zero h = omega arith
le-round2 (suc n) h =
    let word : n % 2 ^ 32 ≡ n = omega arith in
    let (l1, b1) = smear-bounds 2 n (omega arith) (omega arith) in
    let (l2, b2) = smear-bounds (2 ^ 2) _ (omega arith) b1 in
    let (l3, b3) = smear-bounds (2 ^ 4) _ (omega arith) b2 in
    let (l4, b4) = smear-bounds (2 ^ 8) _ (omega arith) b3 in
    let (l5, b5) = smear-bounds (2 ^ 16) _ (omega arith) b4 in rw word (omega arith)

-- The sizes of the buffer of `readBodyIdentity`, without a limit.
abbrev size_at : ℕ → ℕ
size_at j = 1024 * two_to j

doubles : ℕ → Bool
doubles zero = true
doubles (suc j) = round2 (2 * size_at j) == size_at (suc j) && doubles j

doubles-all : doubles 21 ≡ true
unfolding doubles round2 smear
doubles-all = refl

doubles_below : (n j : ℕ) → doubles n ≡ true → j < n → round2 (2 * size_at j) ≡ size_at (suc j)
unfolding doubles
doubles_below zero j h lt = absurd (omega arith)
doubles_below (suc n) j h lt = elim (Bool-cases (j == n)) [
  | inl same ↦ let e : j ≡ n = (==_iff j n).0 same in rw e ((==_iff _ _).0 (ground (arith, h)))
  | inr before ↦ doubles_below n j (ground (arith, h)) (ground (arith, before, lt))
]

size_at-pos : (j : ℕ) → 0 < two_to j
size_at-pos zero = omega arith
size_at-pos (suc j) = omega (arith, size_at-pos j)

-- Few enough bytes, or a limit that is low enough.
abbrev pub IsSmall : ℕ → ℕ → Type 0
IsSmall max total = (total < 2 ^ 31) ⊎ (0 < max) × (max < 2 ^ 31)

-- A buffer of one byte more than the limit is the last.
grows_last : (rounds max total : ℕ) → 0 < max → grows (suc rounds) max (max + 1) total ≡ true
unfolding grows exceeds
grows_last rounds max total pos = ground arith

grows-IsSmall :
    (k j rounds max total : ℕ)
    → j + k ≡ 21
    → k + 1 < rounds
    → IsSmall max total
    → grows rounds max (size_at j) total ≡ true
unfolding grows exceeds
grows-IsSmall k j zero max total sum h small = absurd (omega arith)
grows-IsSmall zero j (suc rounds) max total sum h small =
    let e : j ≡ 21 = omega arith in
    rw e (elim small [ inl few ↦ ground (arith, few) | inr (pos, low) ↦ ground (arith, pos, low) ])
grows-IsSmall (suc k) j (suc zero) max total sum h small = absurd (omega arith)
grows-IsSmall (suc k) j (suc (suc rounds)) max total sum h small =
    let twice = doubles_below 21 j doubles-all (omega arith) in
    let later = grows-IsSmall k (suc j) (suc rounds) max total (omega arith) (omega arith) small in
    let room : size_at j < size_at (suc j) = omega (arith, size_at-pos j) in
    elim (Bool-cases (ltb total (size_at j) || exceeds max (size_at j))) [
      | inl fits ↦ rw (grows, fits) refl
      | inr full ↦ elim (Bool-cases (exceeds max (size_at (suc j)))) [
        | inr below ↦ rw (grows, full, twice, below) (ground (arith, later, room))
        | inl over ↦
            let pos : 0 < max = ground (arith, over) in
            let last = grows_last rounds max total pos in
            rw (grows, full, twice, over) (ground (arith, last, full, pos))
      ]
    ]

pub grows_small : (max total : ℕ) → IsSmall max total → grows 64 max 1024 total ≡ true
grows_small max total small = grows-IsSmall 21 0 64 max total (omega arith) (omega arith) small
