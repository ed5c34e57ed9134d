-- ===== src/Header/Response/Fields/Stored.antt =====
-- What is set in the header of a response can be read, and cannot start a line.
use justhttp.Base.{
  ◌≡◌, refl, ap, ◌∙◌, inl, inr, true, false, List, [], ◌∷◌, map, arith, Bool-cases, All, Bytes,
  codes, equal, equal_iff, equal_self,
}
use justhttp.Args.Store.{set_arg}
use justhttp.Args.Store.Laws.{peek_arg-set_arg}
use justhttp.Cookie.Parse.{case_insensitive_compare}
use justhttp.Header.Key.{normalize_header_key}
use justhttp.Header.Value.{remove_new_lines}
use justhttp.Header.Value.Laws.{blank, remove_new_lines-map}
use justhttp.Header.Request.Fields.{peek_bytes}
use justhttp.Header.Response.{ResponseHeader}
use justhttp.Header.Response.Fields.{set_special_header, set_canonical, set, peek_key, peek}

-- The names that `setSpecialHeader` knows.
abbrev pub special_names : List Bytes
special_names =
    codes "Content-Type"
    ∷ codes "Content-Length"
    ∷ codes "Connection"
    ∷ codes "Server"
    ∷ codes "Set-Cookie"
    ∷ codes "Transfer-Encoding"
    ∷ codes "Date"
    ∷ []

abbrev pub IsCommon : Bytes → Type 0
IsCommon key = All (λ name. case_insensitive_compare name key ≡ false) special_names

case_insensitive_compare_self : (a : Bytes) → case_insensitive_compare a a ≡ true
unfolding case_insensitive_compare
case_insensitive_compare_self [] = refl
case_insensitive_compare_self (c ∷ a) = ground (arith, case_insensitive_compare_self a)

not_equal : (key name : Bytes) → case_insensitive_compare name key ≡ false → equal key name ≡ false
not_equal key name h = elim (Bool-cases (equal key name)) [
  | inr other ↦ other
  | inl same ↦
      let e = ap (case_insensitive_compare name) ((equal_iff key name).0 same) in
      absurd (ground (arith, h, e, case_insensitive_compare_self name))
]

set_canonical-common :
    (r : ResponseHeader) (key value : Bytes)
    → IsCommon key
    → set_canonical r key value ≡ record r { h = set_arg r.h key value false }
unfolding set_canonical set_special_header
set_canonical-common r [] value v = refl
set_canonical-common r (k ∷ key) value v =
    ground (arith, v.0, v.1.0, v.1.1.0, v.1.1.1.0, v.1.1.1.1.0, v.1.1.1.1.1.0, v.1.1.1.1.1.1.0)

peek_key-common :
    (r : ResponseHeader) (key : Bytes) → IsCommon key → peek_key r key ≡ peek_bytes r.h key
unfolding peek_key
peek_key-common r key v = ground (
  arith,
  not_equal key (codes "Content-Type") v.0,
  not_equal key (codes "Content-Length") v.1.0,
  not_equal key (codes "Connection") v.1.1.0,
  not_equal key (codes "Server") v.1.1.1.0,
  not_equal key (codes "Set-Cookie") v.1.1.1.1.0,
)

-- After `Set` of a name that is not special, `Peek` of it gives the value with a space for each '\r'
-- and '\n', so that the value cannot start a line of its own.
pub peek-set :
    (r : ResponseHeader) (key value : Bytes)
    → IsCommon (normalize_header_key key r.disable_normalizing)
    → peek (set r key value) key ≡ map blank value
unfolding peek set peek_bytes
peek-set r key value v =
    let normal = normalize_header_key key r.disable_normalizing in
    let clean = remove_new_lines value in
    let stored = set_canonical-common r normal clean v in
    ap (λ t. peek t key) stored
    ∙ peek_key-common (record r { h = set_arg r.h normal clean false }) normal v
    ∙ rw (peek_bytes, peek_arg-set_arg r.h normal clean false normal, equal_self normal)
        (remove_new_lines-map value)
