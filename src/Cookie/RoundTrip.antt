-- ===== src/Cookie/RoundTrip.antt =====
-- The cookies of a request, written and read back.
use justhttp.Base.{
  ℕ, zero, suc, ◌+◌, ◌<◌, ◌≡◌, refl, sym, ap, ◌∙◌, ◌≢◌, Bool, true, false, Option, none, some, List,
  [], ◌∷◌, ◌++◌, map, append-nil, append_assoc, arith, ltb, length, length-append, All, Bytes,
  codes,
}
use justhttp.Args.Slots.{ArgsKv, Slots, alloc_arg}
use justhttp.Cookie.Scan.{
  next, parse_loop, parse_request_cookies, append_cookie, append_request_cookie_bytes,
}
use justhttp.Cookie.Reading.{IsCookie, gap, next-cookie}

-- The keys and the values.
abbrev pub pairs : List ArgsKv → List (Bytes × Bytes)
pairs = map (λ kv. (kv.key, kv.value))

abbrev pub AreCookies : List ArgsKv → Type 0
AreCookies = All (λ kv. IsCookie kv.key kv.value)

-- The text of the cookies, described without a buffer.
abbrev text : List ArgsKv → Bytes
text [] = []
text (kv ∷ []) = kv.key ++ b'=' ∷ (kv.value ++ [])
text (kv ∷ kv' ∷ kvs) = kv.key ++ b'=' ∷ (kv.value ++ b';' ∷ b' ' ∷ text (kv' ∷ kvs))

filled : (key : Bytes) → key ≢ [] → ltb 0 (length key) ≡ true
filled [] ne = absurd (ne refl)
filled (c ∷ key) ne = ground arith

append_pair_bytes :
    (dst key value : Bytes) (flag : Bool)
    → key ≢ []
    → append_cookie dst (record { key = key; value = value; no_value = flag })
      ≡ dst ++ (key ++ b'=' ∷ value)
unfolding append_cookie
append_pair_bytes dst key value flag ne =
    rw (append_cookie, filled key ne)
      (ap (λ s. s ++ value) (append_assoc dst key (b'=' ∷ []))
        ∙ (append_assoc dst (key ++ b'=' ∷ []) value
            ∙ ap (λ s. dst ++ s) (append_assoc key (b'=' ∷ []) value)))

append_cookie_bytes :
    (dst : Bytes) (kv : ArgsKv)
    → IsCookie kv.key kv.value
    → append_cookie dst kv ≡ dst ++ (kv.key ++ b'=' ∷ kv.value)
append_cookie_bytes dst kv v = append_pair_bytes dst kv.key kv.value kv.no_value v.key_filled

append_request_cookie_bytes-text :
    (cookies : List ArgsKv) (dst : Bytes)
    → AreCookies cookies
    → append_request_cookie_bytes dst cookies ≡ dst ++ text cookies
unfolding append_request_cookie_bytes
append_request_cookie_bytes-text [] dst h = sym (append-nil dst)
append_request_cookie_bytes-text (kv ∷ []) dst (v, h) =
    append_cookie_bytes dst kv v ∙ rw (append-nil kv.value) refl
append_request_cookie_bytes-text (kv ∷ kv' ∷ kvs) dst (v, h) =
    append_request_cookie_bytes-text (kv' ∷ kvs) (append_cookie dst kv ++ codes "; ") h
    ∙ (ap (λ s. (s ++ codes "; ") ++ text (kv' ∷ kvs)) (append_cookie_bytes dst kv v)
        ∙ (append_assoc (dst ++ (kv.key ++ b'=' ∷ kv.value)) (codes "; ") (text (kv' ∷ kvs))
            ∙ (append_assoc dst (kv.key ++ b'=' ∷ kv.value) (codes "; " ++ text (kv' ∷ kvs))
                ∙ ap (λ s. dst ++ s)
                    (append_assoc kv.key (b'=' ∷ kv.value) (codes "; " ++ text (kv' ∷ kvs))))))

-- What the loop of `parseRequestCookies` leaves: the cookies before, and those of the text.
abbrev pub Gives : Option Slots → List (Bytes × Bytes) → Type 0
Gives o ps = (out : Slots) × (o ≡ some out) × (pairs out.visible ≡ ps)

map-append {ℓ κ} :
    {A : Type ℓ} {B : Type κ} (f : A → B) (xs ys : List A) → map f (xs ++ ys) ≡ map f xs ++ map f ys
map-append f [] ys = refl
map-append f (x ∷ xs) ys = ap (◌∷◌ (f x)) (map-append f xs ys)

-- A round that reads a cookie.
parse_loop-cookie :
    (rounds : ℕ) (before : List ArgsKv) (slot : ArgsKv) (spare : List ArgsKv) (b rest : Bytes)
    (kv : ArgsKv)
    → IsCookie kv.key kv.value
    → next b slot ≡ some (record slot { key = kv.key; value = kv.value }, rest)
    → parse_loop (suc rounds) before slot spare b
      ≡ parse_loop rounds
          (before ++ (record slot { key = kv.key; value = kv.value }) ∷ [])
          (alloc_arg spare).0
          (alloc_arg spare).1
          rest
unfolding parse_loop
parse_loop-cookie rounds before slot spare b rest kv v e =
    rw (parse_loop, e, filled kv.key v.key_filled) refl

pairs-one_more :
    (before kvs : List ArgsKv) (slot kv : ArgsKv)
    → pairs (before ++ (record slot { key = kv.key; value = kv.value }) ∷ []) ++ pairs kvs
      ≡ pairs before ++ pairs (kv ∷ kvs)
pairs-one_more before kvs slot kv =
    ap (λ ps. ps ++ pairs kvs)
      (map-append _ before ((record slot { key = kv.key; value = kv.value }) ∷ []))
    ∙ append_assoc (pairs before) ((kv.key, kv.value) ∷ []) (pairs kvs)

parse_loop-done :
    (rounds : ℕ) (before : List ArgsKv) (slot : ArgsKv) (spare : List ArgsKv)
    → Gives (parse_loop (suc rounds) before slot spare []) (pairs before ++ [])
unfolding parse_loop next
parse_loop-done rounds before slot spare =
    (record { visible = before; spare = slot ∷ spare }, refl, sym (append-nil (pairs before)))

text_filled : (kv : ArgsKv) (kvs : List ArgsKv) → 0 < length (text (kv ∷ kvs))
text_filled kv [] = omega (arith, length-append kv.key (b'=' ∷ (kv.value ++ [])))
text_filled kv (kv' ∷ kvs) =
    omega (arith, length-append kv.key (b'=' ∷ (kv.value ++ b';' ∷ b' ' ∷ text (kv' ∷ kvs))))

parse_loop-text :
    (cookies : List ArgsKv) (t : Bool) (rounds : ℕ) (before : List ArgsKv) (slot : ArgsKv)
    (spare : List ArgsKv)
    → AreCookies cookies
    → cookies ≢ []
    → length (text cookies) < rounds
    → Gives
        (parse_loop rounds before slot spare (gap t ++ text cookies))
        (pairs before ++ pairs cookies)
parse_loop-text [] t rounds before slot spare h ne fuel = absurd (ne refl)
parse_loop-text (kv ∷ kvs) t zero before slot spare h ne fuel = absurd (omega arith)
parse_loop-text (kv ∷ kvs) t (suc zero) before slot spare h ne fuel =
    absurd (omega (arith, fuel, text_filled kv kvs))
parse_loop-text (kv ∷ []) t (suc (suc rounds)) before slot spare (v, h) ne fuel =
    let (out, e, same) =
      parse_loop-done rounds (before ++ (record slot { key = kv.key; value = kv.value }) ∷ [])
        (alloc_arg spare).0 (alloc_arg spare).1 in
    (
      out,
      rw (← append_assoc (gap t) kv.key (b'=' ∷ (kv.value ++ []))) (
          parse_loop-cookie (suc rounds) before slot spare _ [] kv v
            (next-cookie t kv.key kv.value none slot v)
          ∙ e),
      same ∙ pairs-one_more before [] slot kv,
    )
parse_loop-text (kv ∷ kv' ∷ kvs) t (suc (suc rounds)) before slot spare (v, h) ne fuel =
    let more = b' ' ∷ text (kv' ∷ kvs) in
    let (out, e, same) =
      parse_loop-text (kv' ∷ kvs) true (suc rounds)
        (before ++ (record slot { key = kv.key; value = kv.value }) ∷ []) (alloc_arg spare).0
        (alloc_arg spare).1 h (λ e. cc)
        (omega (
          arith,
          fuel,
          length-append kv.key (b'=' ∷ (kv.value ++ b';' ∷ more)),
          length-append kv.value (b';' ∷ more),
        )) in
    (
      out,
      rw (← append_assoc (gap t) kv.key (b'=' ∷ (kv.value ++ b';' ∷ more))) (
          parse_loop-cookie (suc rounds) before slot spare _ more kv v
            (next-cookie t kv.key kv.value (some more) slot v)
          ∙ e),
      same ∙ pairs-one_more before (kv' ∷ kvs) slot kv,
    )

-- Cookies whose keys are not empty and have no '=' or ';', whose values have no ';', and neither
-- with spaces around it or a value in quotes, are read back from the header that is written of
-- them: `parseRequestCookies` finishes, and leaves the cookies that were there and these, in order,
-- whatever stood in the slots that it uses again.
pub parse_request_cookies-append_request_cookie_bytes :
    (cookies : List ArgsKv) (h : Slots)
    → AreCookies cookies
    → Gives
        (parse_request_cookies h (append_request_cookie_bytes [] cookies))
        (pairs h.visible ++ pairs cookies)
unfolding parse_request_cookies append_request_cookie_bytes
parse_request_cookies-append_request_cookie_bytes [] h v =
    parse_loop-done 0 h.visible (alloc_arg h.spare).0 (alloc_arg h.spare).1
parse_request_cookies-append_request_cookie_bytes (kv ∷ kvs) h v =
    let written = append_request_cookie_bytes-text (kv ∷ kvs) [] v in
    rw (parse_request_cookies, written)
      (parse_loop-text (kv ∷ kvs) false (length (text (kv ∷ kvs)) + 1) h.visible
        (alloc_arg h.spare).0 (alloc_arg h.spare).1 v (λ e. cc) (omega arith))
