-- ===== src/Header/Request/FirstLine.antt =====
-- The first line of a request as it is written and as it is parsed.
use justhttp.Base.{
  ℕ, suc, ◌+◌, ◌<◌, ◌≡◌, refl, ◌≢◌, inl, inr, Bool, true, false, not, ◌||◌, none, some, [], ◌∷◌,
  ◌++◌, arith, Bool-cases, length, All-append, Bytes, codes, Lacks, equal, equal_iff, ok,
  index_byte-append, take-length-append, drop-length-append,
}
use justhttp.Base.Search.{last_index_byte}
use justhttp.Header.Request.{RequestHeader}
use justhttp.Header.Request.Parse.{parse_target, parse_method}

-- What can stand in a first line.
pub record IsFirstLine (method request_uri proto : Bytes) : Type 0 where
  pub method_some : 0 < length method
  pub method_space : Lacks b' ' method
  pub method_line : Lacks b'\n' method
  pub uri_some : 0 < length request_uri
  pub uri_line : Lacks b'\n' request_uri
  pub proto_space : Lacks b' ' proto
  pub proto_line : Lacks b'\n' proto

abbrev pub first_line : Bytes → Bytes → Bytes → Bytes
first_line method request_uri proto = method ++ b' ' ∷ (request_uri ++ b' ' ∷ proto)

last_index_byte-none : (s : Bytes) (b : ℕ) → Lacks b s → last_index_byte s b ≡ none
unfolding last_index_byte
last_index_byte-none [] b h = refl
last_index_byte-none (c ∷ s) b (hc, h) = ground (arith, last_index_byte-none s b h)

last_index_byte-append :
    (s r : Bytes) (b : ℕ) → Lacks b r → last_index_byte (s ++ b ∷ r) b ≡ some (length s)
unfolding last_index_byte
last_index_byte-append [] r b h = ground (arith, last_index_byte-none r b h)
last_index_byte-append (c ∷ s) r b h = ground (arith, last_index_byte-append s r b h)

pub Lacks-first_line :
    (method request_uri proto : Bytes)
    → IsFirstLine method request_uri proto
    → Lacks b'\n' (first_line method request_uri proto)
Lacks-first_line method request_uri proto v =
    All-append (λ c. c ≢ b'\n') method (b' ' ∷ (request_uri ++ b' ' ∷ proto)) v.method_line
      (
        (λ e. ground (arith, e)),
        All-append (λ c. c ≢ b'\n') request_uri (b' ' ∷ proto) v.uri_line
            ((λ e. ground (arith, e)), v.proto_line),
      )

or_true : (b : Bool) → (b || true) ≡ true
or_true false = refl
or_true true = refl

http11 : (b : Bool) → (b || false) ≡ b
http11 false = refl
http11 true = refl

parse_target-line :
    (r : RequestHeader) (request_uri proto : Bytes)
    → 0 < length request_uri
    → parse_target r (request_uri ++ b' ' ∷ proto) (some (length request_uri))
      ≡ ok (record r {
        request_uri = request_uri;
        proto = proto;
        no_http11 = r.no_http11 || not (equal proto (codes "HTTP/1.1"));
      })
unfolding parse_target
parse_target-line r [] proto pos = absurd (omega arith)
parse_target-line r (c ∷ uri) proto pos =
    let e : length uri + 2 ≡ suc (suc (length uri)) = omega arith in
    rw (e, take-length-append uri (b' ' ∷ proto), drop-length-append uri b' ' proto)
      (elim (Bool-cases (equal proto (codes "HTTP/1.1"))) [
        | inl current ↦
            let same = (equal_iff proto (codes "HTTP/1.1")).0 current in
            ground (arith, current, same, http11 r.no_http11)
        | inr other ↦ ground (arith, other, or_true r.no_http11)
      ])

-- The first line is read back.
pub parse_method-first_line :
    (r : RequestHeader) (method request_uri proto : Bytes)
    → IsFirstLine method request_uri proto
    → parse_method r (first_line method request_uri proto)
      ≡ ok (record r {
        method = method;
        request_uri = request_uri;
        proto = proto;
        no_http11 = r.no_http11 || not (equal proto (codes "HTTP/1.1"));
      })
unfolding parse_method
parse_method-first_line r [] request_uri proto v = absurd (omega (arith, v.method_some))
parse_method-first_line r (m ∷ method) request_uri proto v =
    let e : length method + 2 ≡ suc (suc (length method)) = omega arith in
    let b = request_uri ++ b' ' ∷ proto in
    rw (parse_method, index_byte-append (m ∷ method) b b' ' v.method_space, e)
      (rw (take-length-append method (b' ' ∷ b), drop-length-append method b' ' b)
        (rw (last_index_byte-append request_uri proto b' ' v.proto_space)
          (parse_target-line (record r { method = m ∷ method }) request_uri proto v.uri_some)))
