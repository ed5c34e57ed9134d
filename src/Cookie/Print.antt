-- ===== src/Cookie/Print.antt =====
-- `Cookie.AppendBytes` of cookie.go, with `AppendHTTPDate` of bytesconv.go.
use justhttp.Base.{
  zero, suc, ◌-◌, not, Option, some, [], ◌∷◌, ◌++◌, ltb, if◌then◌else◌, length, take, Bytes, codes,
}
use justhttp.Base.Int.{pos, negsuc}
use justhttp.Bytesconv.Uint.{append_uint}
use justhttp.Uri.Path.{◌then_if_done◌}
use justhttp.Cookie.State.{
  TimePackage, CookieSameSite, disabled, default_mode, lax_mode, strict_mode, none_mode, Cookie,
}

unfoldable pub append_cookie_part : Bytes → Bytes → Bytes → Bytes
append_cookie_part dst key value = (((dst ++ codes "; ") ++ key) ++ b'=' ∷ []) ++ value

-- The switch on `sameSite`.
unfoldable pub append_same_site : Bytes → CookieSameSite → Bytes
append_same_site dst disabled = dst
append_same_site dst default_mode = dst ++ codes "; SameSite"
append_same_site dst lax_mode = dst ++ codes "; SameSite=Lax"
append_same_site dst strict_mode = dst ++ codes "; SameSite=Strict"
append_same_site dst none_mode = dst ++ codes "; SameSite=None"

module _ {Time : Type 0} (time : TimePackage Time) where
  -- `AppendHTTPDate`: the last three bytes, "UTC", become "GMT".
  unfoldable pub append_http_date : Bytes → Time → Bytes
  append_http_date dst date =
      let written = dst ++ time.format_rfc1123 date in
      take (length written - 3) written ++ codes "GMT"

  -- The key and the value.
  unfoldable pub append_pair : Bytes → Cookie Time → Bytes
  append_pair dst c =
      if ltb 0 (length c.key) then ((dst ++ c.key) ++ b'=' ∷ []) ++ c.value else dst ++ c.value

  unfoldable pub append_expires : Bytes → Cookie Time → Bytes
  unfolding append_http_date
  append_expires dst c =
      if not (time.is_zero c.expire)
      then (dst ++ codes "; expires=") ++ append_http_date [] c.expire
      else dst

  -- The age, or else the time; `none` is the panic of `AppendUint`.
  unfoldable pub append_age : Bytes → Cookie Time → Option Bytes
  unfolding append_expires append_uint
  append_age dst c = elim c.max_age [
    | pos zero ↦ some (append_expires dst c)
    | pos (suc n) ↦ append_uint (dst ++ codes "; max-age=") (suc n)
    | negsuc n ↦ some (append_expires dst c)
  ]

  -- What stands behind the age.
  unfoldable pub append_flags : Bytes → Cookie Time → Bytes
  unfolding append_cookie_part append_same_site
  append_flags dst c =
      let at_domain =
        if ltb 0 (length c.domain) then append_cookie_part dst (codes "domain") c.domain else dst in
      let at_path =
        if ltb 0 (length c.path)
        then append_cookie_part at_domain (codes "path") c.path
        else at_domain in
      let at_http_only = if c.http_only then at_path ++ codes "; HttpOnly" else at_path in
      let at_secure = if c.secure then at_http_only ++ codes "; secure" else at_http_only in
      append_same_site at_secure c.same_site

  -- `Cookie.AppendBytes`.
  unfoldable pub append_set_cookie : Bytes → Cookie Time → Option Bytes
  unfolding append_pair append_age append_flags
  append_set_cookie dst c =
      append_age (append_pair dst c) c then_if_done λ aged. some (append_flags aged c)
