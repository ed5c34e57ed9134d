-- ===== src/Cookie/State.antt =====
-- The fields of a response cookie and the methods that set them, cookie.go. The type of times is a
-- parameter, and so is what package time does with them. The buffers `bufKV` and `buf` are written
-- anew by each call that reads them, and are no part of the state.
use justhttp.Base.{Bool, true, false, Option, some, [], if◌then◌else◌, Bytes}
use justhttp.Base.Int.{ℤ, pos}
use justhttp.Uri.Path.{normalize_path, ◌then_if_done◌}

-- Package time: the zero time and `IsZero`; a time in the format RFC1123 after `date.In(time.UTC)`;
-- and what the two calls that parse a date give, `none` for an error.
pub record TimePackage (Time : Type 0) : Type 0 where
  pub zero_time : Time
  pub is_zero : Time → Bool
  pub format_rfc1123 : Time → Bytes
  pub parse_rfc1123 : Bytes → Option Time
  pub parse_dashed : Bytes → Option Time

-- `CookieSameSite`.
pub data CookieSameSite : Type 0 where
  disabled default_mode lax_mode strict_mode none_mode : CookieSameSite

pub record Cookie (Time : Type 0) : Type 0 where
  pub key : Bytes
  pub value : Bytes
  pub expire : Time
  pub max_age : ℤ
  pub domain : Bytes
  pub path : Bytes
  pub http_only : Bool
  pub secure : Bool
  pub same_site : CookieSameSite

module _ {Time : Type 0} where
  -- `Cookie.Reset`.
  unfoldable pub reset : TimePackage Time → Cookie Time → Cookie Time
  reset time c = record {
    key = [];
    value = [];
    expire = time.zero_time;
    max_age = pos 0;
    domain = [];
    path = [];
    http_only = false;
    secure = false;
    same_site = disabled;
  }

  -- `c.CopyTo(src)`, for two objects; it copies every field of `src`.
  unfoldable pub copy_to : Cookie Time → Cookie Time → Cookie Time
  copy_to c src = record c {
    key = src.key;
    value = src.value;
    expire = src.expire;
    max_age = src.max_age;
    domain = src.domain;
    path = src.path;
    http_only = src.http_only;
    secure = src.secure;
    same_site = src.same_site;
  }

  unfoldable pub set_http_only : Cookie Time → Bool → Cookie Time
  set_http_only c b = record c { http_only = b }

  unfoldable pub set_secure : Cookie Time → Bool → Cookie Time
  set_secure c b = record c { secure = b }

  unfoldable pub set_same_site : Cookie Time → CookieSameSite → Cookie Time
  unfolding set_secure
  set_same_site c none_mode = set_secure (record c { same_site = none_mode }) true
  set_same_site c mode = record c { same_site = mode }

  unfoldable pub set_path : Cookie Time → Bytes → Option (Cookie Time)
  unfolding normalize_path
  set_path c b = normalize_path b then_if_done λ normal. some (record c { path = normal })

  unfoldable pub set_domain : Cookie Time → Bytes → Cookie Time
  set_domain c b = record c { domain = b }

  unfoldable pub set_max_age : Cookie Time → ℤ → Cookie Time
  set_max_age c seconds = record c { max_age = seconds }

  -- `Cookie.Expire`.
  unfoldable pub expire_of : TimePackage Time → Cookie Time → Time
  expire_of time c = if time.is_zero c.expire then time.zero_time else c.expire

  unfoldable pub set_expire : Cookie Time → Time → Cookie Time
  set_expire c expire = record c { expire = expire }

  unfoldable pub set_value : Cookie Time → Bytes → Cookie Time
  set_value c b = record c { value = b }

  unfoldable pub set_key : Cookie Time → Bytes → Cookie Time
  set_key c b = record c { key = b }
