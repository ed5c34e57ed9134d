-- ===== src/Base/Slices.antt =====
-- Byte slices as lists of numbers, with the functions of package bytes that the program calls.
use Prim.Native.Char.{code}
use Prim.Native.String.{String}
use Prim.Native.Nat.{ℕ, suc, ◌<◌}
use mathlib.Core.Option.{Option, none, some}
use mathlib.Core.Path.{◌≡◌, refl, ap}
use mathlib.Core.Logic.{◌↔◌, ◌≢◌}
use mathlib.Core.Bool.{Bool, true, false, ◌&&◌}
use mathlib.Core.List.{List, [], ◌∷◌, ◌++◌}
use native.Mathlib.Omega.{arith}
use justhttp.Base.Tests.{◌==◌, if◌then◌else◌}
use justhttp.Base.Lists.{All, length, take, drop}

abbrev pub Bytes : Type 0
Bytes = List ℕ

-- The code points of a literal, which are its bytes where the text is ASCII.
abbrev pub codes : String → Bytes
codes String.[] = []
codes (String.◌∷◌ c s) = code c ∷ codes s

abbrev pub IsByte : ℕ → Type 0
IsByte c = c < 256

abbrev pub Lacks : ℕ → Bytes → Type 0
Lacks b = All (λ c. c ≢ b)

-- `bytes.Equal`, and `==` on strings.
unfoldable pub equal : Bytes → Bytes → Bool
equal [] [] = true
equal (x ∷ xs) (y ∷ ys) = x == y && equal xs ys
equal _ _ = false

pub equal_iff : (a b : Bytes) → (equal a b ≡ true) ↔ (a ≡ b)
unfolding equal
equal_iff [] [] = ground arith
equal_iff [] (d ∷ b) = ground arith
equal_iff (c ∷ a) [] = ground arith
equal_iff (c ∷ a) (d ∷ b) = ground (arith, equal_iff a b)

pub equal_self : (a : Bytes) → equal a a ≡ true
equal_self a = (equal_iff a a).1 refl

pub equal_symm : (a b : Bytes) → equal a b ≡ equal b a
equal_symm a b = ground (arith, equal_iff a b, equal_iff b a)

-- `bytes.IndexByte`; `none` is -1.
unfoldable pub index_byte : Bytes → ℕ → Option ℕ
index_byte [] b = none
index_byte (c ∷ s) b =
    let next : Option ℕ = elim (index_byte s b) [ none ↦ none | some i ↦ some (suc i) ] in
    if c == b then some 0 else next

pub index_byte-none : (s : Bytes) (b : ℕ) → index_byte s b ≡ none → Lacks b s
unfolding index_byte
index_byte-none [] b h = tt
index_byte-none (c ∷ s) b h = ground (arith, index_byte-none s b)

abbrev pub is_none {ℓ} : {A : Type ℓ} → Option A → Bool
is_none none = true
is_none (some a) = false

pub index_byte-append :
    (s r : Bytes) (b : ℕ) → Lacks b s → index_byte (s ++ b ∷ r) b ≡ some (length s)
unfolding index_byte
index_byte-append [] r b h = ground arith
index_byte-append (c ∷ s) r b (hc, hs) = ground (arith, index_byte-append s r b hs)

pub take-length-append {ℓ} : {A : Type ℓ} (s r : List A) → take (length s) (s ++ r) ≡ s
take-length-append [] r = refl
take-length-append (c ∷ s) r = ap (◌∷◌ c) (take-length-append s r)

pub drop-length-append {ℓ} :
    {A : Type ℓ} (s : List A) (c : A) (r : List A) → drop (suc (length s)) (s ++ c ∷ r) ≡ r
drop-length-append [] c r = refl
drop-length-append (x ∷ s) c r = drop-length-append s c r
