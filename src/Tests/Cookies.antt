-- ===== src/Tests/Cookies.antt =====
-- Cookies: cookie.go.
use justhttp.Base.{ℕ, ◌≡◌, refl, true, false, none, List, [], ◌∷◌, arith, ◌==◌, Bytes, codes, ok}
use justhttp.Args.Slots.{ArgsKv, Slots}
use justhttp.Cookie.Scan.{parse_request_cookies, append_request_cookie_bytes, decode_cookie_arg}
use justhttp.Base.Int.{pos}
use justhttp.Cookie.State.{TimePackage, Cookie, disabled, lax_mode}
use justhttp.Cookie.Parse.{parse_set_cookie}
use justhttp.Cookie.RoundTrip.{
  pairs, AreCookies, Gives, parse_request_cookies-append_request_cookie_bytes,
}

abbrev cookie : Bytes → Bytes → ArgsKv
cookie k v = record { key = k; value = v; no_value = false }

abbrev two_cookies : List ArgsKv
two_cookies = cookie (codes "a") (codes "x=1") ∷ cookie (codes "b c") [] ∷ []

-- A slot that an earlier header has left behind.
abbrev used_slots : Slots
used_slots = record { visible = []; spare = cookie (codes "old") (codes "value") ∷ [] }

two_cookies_written : append_request_cookie_bytes [] two_cookies ≡ codes "a=x=1; b c="
unfolding append_request_cookie_bytes
two_cookies_written = refl

two_cookies-AreCookies : AreCookies two_cookies
unfolding decode_cookie_arg
two_cookies-AreCookies = (
  record {
    key_filled = λ e. cc;
    key_equals = ground arith;
    key_ends = ground arith;
    key_bare = refl;
    value_ends = ground arith;
    value_bare = refl;
  },
  (
    record {
      key_filled = λ e. cc;
      key_equals = ground arith;
      key_ends = ground arith;
      key_bare = refl;
      value_ends = tt;
      value_bare = refl;
    },
    tt,
  ),
)

parse_request_cookies-append_request_cookie_bytes_example :
    Gives
      (parse_request_cookies used_slots (append_request_cookie_bytes [] two_cookies))
      (pairs two_cookies)
parse_request_cookies-append_request_cookie_bytes_example =
    parse_request_cookies-append_request_cookie_bytes two_cookies used_slots two_cookies-AreCookies

-- Times as seconds, of which no date is read.
abbrev clock : TimePackage ℕ
clock = record {
  zero_time = 0;
  is_zero = λ t. t == 0;
  format_rfc1123 = λ t. codes "Thu, 01 Jan 1970 00:00:00 UTC";
  parse_rfc1123 = λ b. none;
  parse_dashed = λ b. none;
}

abbrev no_cookie : Cookie ℕ
no_cookie = record {
  key = [];
  value = [];
  expire = 0;
  max_age = pos 0;
  domain = [];
  path = [];
  http_only = false;
  secure = false;
  same_site = disabled;
}

parse_set_cookie_run :
    parse_set_cookie clock no_cookie (codes "a=b; Max-Age=7; httponly; SameSite=lax")
    ≡ ok (record no_cookie {
      key = codes "a";
      value = codes "b";
      max_age = pos 7;
      http_only = true;
      same_site = lax_mode;
    })
unfolding parse_set_cookie
parse_set_cookie_run = refl
