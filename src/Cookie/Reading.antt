-- ===== src/Cookie/Reading.antt =====
-- What the scanner of cookies reads from a text that is a key, a '=' and a value.
use justhttp.Base.{
  ℕ, ◌≡◌, refl, ap, ◌∙◌, ◌≢◌, Bool, true, false, Option, none, some, [], ◌∷◌, ◌++◌, append-nil,
  append_assoc, arith, Bytes, Lacks,
}
use justhttp.Args.Slots.{ArgsKv}
use justhttp.Cookie.Scan.{trim_left, decode_cookie_arg, finish_cookie, next_loop, next}

key_read :
    (key part b : Bytes) (kv : ArgsKv)
    → Lacks b'=' key
    → Lacks b';' key
    → next_loop true part kv (key ++ b'=' ∷ b)
      ≡ next_loop false [] (record kv { key = decode_cookie_arg (part ++ key) false }) b
unfolding next_loop
key_read [] part b kv he hs = rw (append-nil part) refl
key_read (c ∷ key) part b kv (hc, he) (hd, hs) =
    ground (arith, key_read key (part ++ c ∷ []) b kv he hs, append_assoc part (c ∷ []) key)

value_read_to :
    (value part b : Bytes) (kv : ArgsKv)
    → Lacks b';' value
    → next_loop false part kv (value ++ b';' ∷ b) ≡ (finish_cookie false (part ++ value) kv, b)
unfolding next_loop
value_read_to [] part b kv hs = rw (append-nil part) refl
value_read_to (c ∷ value) part b kv (hd, hs) =
    ground (arith, value_read_to value (part ++ c ∷ []) b kv hs, append_assoc part (c ∷ []) value)

value_read_all :
    (value part : Bytes) (kv : ArgsKv)
    → Lacks b';' value
    → next_loop false part kv value ≡ (finish_cookie false (part ++ value) kv, [])
unfolding next_loop
value_read_all [] part kv hs = rw (append-nil part) refl
value_read_all (c ∷ value) part kv (hd, hs) =
    ground (arith, value_read_all value (part ++ c ∷ []) kv hs, append_assoc part (c ∷ []) value)

-- A text that the scanner takes as it is: it has no space to strip, and no quotes if they count.
abbrev pub IsBare : Bool → Bytes → Type 0
IsBare quotes s = decode_cookie_arg s quotes ≡ s

-- A key and a value that can stand in a cookie header.
pub record IsCookie (key value : Bytes) : Type 0 where
  pub key_filled : key ≢ []
  pub key_equals : Lacks b'=' key
  pub key_ends : Lacks b';' key
  pub key_bare : IsBare false key
  pub value_ends : Lacks b';' value
  pub value_bare : IsBare true value

-- A space may stand before a key.
abbrev pub gap : Bool → Bytes
gap true = b' ' ∷ []
gap false = []

gap_bare :
    (t : Bool) (key : Bytes) → IsBare false key → decode_cookie_arg (gap t ++ key) false ≡ key
unfolding decode_cookie_arg trim_left
gap_bare true key h = h
gap_bare false key h = h

gap-Lacks : (t : Bool) (c : ℕ) (key : Bytes) → c ≢ b' ' → Lacks c key → Lacks c (gap t ++ key)
gap-Lacks true c key ne h = ((λ e. ground (arith, e, ne)), h)
gap-Lacks false c key ne h = h

-- What stands behind a cookie: nothing, or a ';' and more.
abbrev pub behind : Option Bytes → Bytes
behind none = []
behind (some b) = b';' ∷ b

abbrev pub rest_of : Option Bytes → Bytes
rest_of none = []
rest_of (some b) = b

next_loop-cookie :
    (t : Bool) (key value : Bytes) (more : Option Bytes) (slot : ArgsKv)
    → IsCookie key value
    → next_loop true [] slot ((gap t ++ key) ++ b'=' ∷ (value ++ behind more))
      ≡ (record slot { key = key; value = value }, rest_of more)
unfolding finish_cookie
next_loop-cookie t key value more slot v =
    key_read (gap t ++ key) [] (value ++ behind more) slot
      (gap-Lacks t b'=' key (λ e. cc) v.key_equals) (gap-Lacks t b';' key (λ e. cc) v.key_ends)
    ∙ (rw (gap_bare t key v.key_bare) (value_read more))
  where
    value_read :
        (more : Option Bytes)
        → next_loop false [] (record slot { key = key }) (value ++ behind more)
          ≡ (record slot { key = key; value = value }, rest_of more)
    value_read none = rw (append-nil value) (
        value_read_all value [] (record slot { key = key }) v.value_ends
        ∙ rw (finish_cookie, v.value_bare) refl)
    value_read (some b) =
        value_read_to value [] b (record slot { key = key }) v.value_ends
        ∙ rw (finish_cookie, v.value_bare) refl

-- The scanner reads the key and the value, and leaves what stands behind the ';'.
pub next-cookie :
    (t : Bool) (key value : Bytes) (more : Option Bytes) (slot : ArgsKv)
    → IsCookie key value
    → next ((gap t ++ key) ++ b'=' ∷ (value ++ behind more)) slot
      ≡ some (record slot { key = key; value = value }, rest_of more)
unfolding next
next-cookie true key value more slot v = ap some (next_loop-cookie true key value more slot v)
next-cookie false [] value more slot v = absurd (v.key_filled refl)
next-cookie false (c ∷ key) value more slot v =
    ap some (next_loop-cookie false (c ∷ key) value more slot v)
