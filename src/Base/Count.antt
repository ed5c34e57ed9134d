-- ===== src/Base/Count.antt =====
-- How often a number stands in a list, and the list with one of them taken out.
use Prim.Native.Nat.{ℕ, ◌+◌, ◌<◌}
use mathlib.Core.Path.{◌≡◌}
use mathlib.Core.List.{List, [], ◌∷◌, ◌++◌}
use native.Mathlib.Omega.{arith}
use justhttp.Base.Tests.{◌==◌, if◌then◌else◌}

abbrev pub count : ℕ → List ℕ → ℕ
count a [] = 0
count a (x ∷ xs) = (if x == a then 1 else 0) + count a xs

abbrev pub remove : ℕ → List ℕ → List ℕ
remove a [] = []
remove a (x ∷ xs) = if x == a then xs else x ∷ remove a xs

pub count-remove :
    (a b : ℕ) (xs : List ℕ)
    → 0 < count a xs
    → count b (remove a xs) + (if a == b then 1 else 0) ≡ count b xs
count-remove a b [] h = absurd (omega arith)
count-remove a b (x ∷ xs) h = ground (arith, count-remove a b xs)

pub count-append :
    (k : ℕ) (front back : List ℕ) → count k (front ++ back) ≡ count k front + count k back
count-append k [] back = omega arith
count-append k (i ∷ front) back = ground (arith, count-append k front back)
