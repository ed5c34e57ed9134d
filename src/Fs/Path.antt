-- ===== src/Fs/Path.antt =====
-- Paths of static files: the slashes that are stripped, and what is refused.
use justhttp.Base.{
  ℕ, zero, suc, ◌≡◌, refl, sym, ap, ◌∙◌, Bool, false, not, ◌&&◌, Option, none, some, List, [], ◌∷◌,
  ◌++◌, append-nil, arith, ltb, leb, ◌==◌, if◌then◌else◌, length, drop, All, Bytes, codes, Lacks,
  Result, ok, err, index_byte, is_none, index_byte-append,
}
use justhttp.Base.Search.{index}

-- `stripLeadingSlashes`; `none` is a panic. The number of slashes is not negative.
unfoldable pub strip_leading_slashes : ℕ → Bytes → Option Bytes
strip_leading_slashes zero path = some path
strip_leading_slashes (suc n) [] = some []
strip_leading_slashes (suc n) (c ∷ path) =
    if c == b'/'
    then (elim (index_byte path b'/') [
      | none ↦ some []
      | some i ↦ strip_leading_slashes n (drop i path)
    ])
    else none

-- `stripTrailingSlashes`, from the front.
unfoldable pub strip_trailing_slashes : Bytes → Bytes
strip_trailing_slashes [] = []
strip_trailing_slashes (c ∷ path) = elim (strip_trailing_slashes path) [
  | [] ↦ if c == b'/' then [] else c ∷ []
  | d ∷ rest ↦ c ∷ d ∷ rest
]

-- `hasTrailingSlash` of `handleRequest`.
unfoldable pub has_trailing_slash : Bytes → Bool
has_trailing_slash [] = false
has_trailing_slash (c ∷ []) = c == b'/'
has_trailing_slash (c ∷ d ∷ path) = has_trailing_slash (d ∷ path)

pub data PathError : Type 0 where
  nil_byte dot_dot : PathError

-- The path that `handleRequest` looks up, for the path that it is given; `rewritten` tells that
-- there is a `PathRewrite`.
unfoldable pub served_path : Bool → Bytes → Result PathError Bytes
unfolding strip_trailing_slashes
served_path rewritten path =
    let stripped = strip_trailing_slashes path in
    if not (is_none (index_byte stripped 0))
    then err nil_byte
    else if rewritten && not (is_none (index (codes "/../") stripped))
    then err dot_dot
    else ok stripped

-- The paths that `NewPathSlashesStripper` and `NewPathPrefixStripper` make of a path.
unfoldable pub path_slashes_stripper : ℕ → Bytes → Option Bytes
unfolding strip_leading_slashes
path_slashes_stripper slashes_count path = strip_leading_slashes slashes_count path

unfoldable pub path_prefix_stripper : ℕ → Bytes → Bytes
path_prefix_stripper prefix_size path =
    if leb prefix_size (length path) then drop prefix_size path else path

-- The path that `NewVHostPathRewriter` sets, before it is normalized; `none` is a panic.
unfoldable pub vhost_path : ℕ → Bytes → Bytes → Option Bytes
unfolding strip_leading_slashes
vhost_path slashes_count host path =
    let named = is_none (index_byte host b'/') && ltb 0 (length host) in
    elim (strip_leading_slashes slashes_count path) [
      | none ↦ none
      | some rest ↦ some (b'/' ∷ (if named then host else codes "invalid-host") ++ rest)
    ]

-- Segments, each behind a slash.
abbrev pub join : List Bytes → Bytes
join [] = []
join (s ∷ segments) = (b'/' ∷ s) ++ join segments

drop-length {ℓ} : {A : Type ℓ} (s r : List A) → drop (length s) (s ++ r) ≡ r
drop-length [] r = refl
drop-length (x ∷ s) r = drop-length s r

-- The next segment, where another one follows.
strip_leading_slashes_next :
    (n : ℕ) (s r : Bytes)
    → Lacks b'/' s
    → strip_leading_slashes (suc n) (b'/' ∷ (s ++ b'/' ∷ r)) ≡ strip_leading_slashes n (b'/' ∷ r)
unfolding strip_leading_slashes
strip_leading_slashes_next n s r h =
    rw (index_byte-append s r b'/' h) (rw (drop-length s (b'/' ∷ r)) refl)

index_byte-Lacks : (s : Bytes) → Lacks b'/' s → index_byte s b'/' ≡ none
unfolding index_byte
index_byte-Lacks [] h = refl
index_byte-Lacks (c ∷ s) (hc, hs) = ground (arith, index_byte-Lacks s hs)

-- Of a path of slashes and segments without slashes, `stripLeadingSlashes` drops as many segments
-- as it is told to, or all of them, and it does not panic.
pub strip_leading_slashes-join :
    (n : ℕ) (segments : List Bytes)
    → All (Lacks b'/') segments
    → strip_leading_slashes n (join segments) ≡ some (join (drop n segments))
unfolding strip_leading_slashes
strip_leading_slashes-join zero segments h = refl
strip_leading_slashes-join (suc n) [] h = refl
strip_leading_slashes-join (suc n) (s ∷ []) (hs, h) =
    rw (append-nil s, index_byte-Lacks s hs) (sym (ap (λ p. some (join p)) (drop-nil n)))
  where
    drop-nil : (k : ℕ) → drop {A = Bytes} k [] ≡ []
    drop-nil zero = refl
    drop-nil (suc k) = refl
strip_leading_slashes-join (suc n) (s ∷ t ∷ segments) (hs, h) =
    strip_leading_slashes_next n s (t ++ join segments) hs
    ∙ strip_leading_slashes-join n (t ∷ segments) h
