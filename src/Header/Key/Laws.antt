-- ===== src/Header/Key/Laws.antt =====
-- What the normal form of a header name keeps and what it forgets.
use justhttp.Base.{◌≡◌, refl, sym, ap, ◌∙◌, ◌↔◌, Bool, true, false, [], ◌∷◌, arith, Bytes}
use justhttp.Uri.State.{lowercase_bytes}
use justhttp.Header.Key.{normalize_from, normalize_header_key}

normalize_from_again :
    (capital : Bool) (b : Bytes)
    → normalize_from capital (normalize_from capital b) ≡ normalize_from capital b
unfolding normalize_from
normalize_from_again capital [] = refl
normalize_from_again true (c ∷ b) = ground (arith, normalize_from_again false b)
normalize_from_again false (c ∷ b) =
    ground (arith, normalize_from_again true b, normalize_from_again false b)

-- A header name that is normalized again stays as it is.
pub normalize_header_key_again :
    (b : Bytes) (disable : Bool)
    → normalize_header_key (normalize_header_key b disable) disable ≡ normalize_header_key b disable
unfolding normalize_header_key
normalize_header_key_again b true = refl
normalize_header_key_again b false = normalize_from_again true b

normalize_from-eq :
    (capital : Bool) (a b : Bytes)
    → lowercase_bytes a ≡ lowercase_bytes b
    → normalize_from capital a ≡ normalize_from capital b
unfolding normalize_from lowercase_bytes
normalize_from-eq capital [] [] h = refl
normalize_from-eq capital [] (d ∷ b) h = cc
normalize_from-eq capital (c ∷ a) [] h = cc
normalize_from-eq true (c ∷ a) (d ∷ b) h = ground (arith, normalize_from-eq false a b)
normalize_from-eq false (c ∷ a) (d ∷ b) h =
    ground (arith, normalize_from-eq false a b, normalize_from-eq true a b)

lowercase-normalize_from :
    (capital : Bool) (a : Bytes) → lowercase_bytes (normalize_from capital a) ≡ lowercase_bytes a
unfolding normalize_from lowercase_bytes
lowercase-normalize_from capital [] = refl
lowercase-normalize_from true (c ∷ a) = ground (arith, lowercase-normalize_from false a)
lowercase-normalize_from false (c ∷ a) =
    ground (arith, lowercase-normalize_from false a, lowercase-normalize_from true a)

-- Two header names have one normal form exactly if they are equal up to the case of ASCII letters.
pub normalize_header_key_iff :
    (a b : Bytes)
    → (normalize_header_key a false ≡ normalize_header_key b false)
      ↔ (lowercase_bytes a ≡ lowercase_bytes b)
unfolding normalize_header_key
normalize_header_key_iff a b = (
  λ h.
      sym (lowercase-normalize_from true a)
      ∙ (ap lowercase_bytes h ∙ lowercase-normalize_from true b),
  normalize_from-eq true a b,
)
