-- ===== src/Header/Request/Cookies.antt =====
-- The cookies of a request, which stay among the other headers until they are asked for.
use justhttp.Base.{true, false, Option, some, List, [], ◌∷◌, ◌++◌, if◌then◌else◌, Bytes, codes}
use justhttp.Args.Slots.{ArgsKv, Slots}
use justhttp.Args.Store.{set_arg, del_all_args, peek_arg}
use justhttp.Cookie.Parse.{case_insensitive_compare}
use justhttp.Cookie.Scan.{parse_request_cookies}
use justhttp.Uri.Path.{◌then_if_done◌}
use justhttp.Header.Request.{RequestHeader}

-- The loop of `collectCookies`: `before` is `h.h[:i]`, the list is `h.h[i:n]`. A header that is a
-- cookie moves behind the last one, to the front of the spare slots.
unfoldable pub collect_loop :
    List ArgsKv → List ArgsKv → List ArgsKv → Slots → Option (Slots × Slots)
unfolding case_insensitive_compare
collect_loop before [] spare cookies = some (record { visible = before; spare = spare }, cookies)
collect_loop before (kv ∷ kvs) spare cookies =
    let collected = parse_request_cookies cookies kv.value then_if_done λ more.
    collect_loop before kvs (kv ∷ spare) more in
    let kept = collect_loop (before ++ kv ∷ []) kvs spare cookies in
    if case_insensitive_compare kv.key (codes "Cookie") then collected else kept

unfoldable pub collect_cookies : RequestHeader → Option RequestHeader
unfolding collect_loop
collect_cookies r =
    if r.cookies_collected
    then some r
    else (collect_loop [] r.h.visible r.h.spare r.cookies then_if_done λ found.
        some (record r { h = found.0; cookies = found.1; cookies_collected = true }))

unfoldable pub set_cookie : RequestHeader → Bytes → Bytes → Option RequestHeader
unfolding collect_cookies set_arg
set_cookie r key value = collect_cookies r then_if_done λ c.
    some (record c { cookies = set_arg c.cookies key value false })

unfoldable pub del_cookie : RequestHeader → Bytes → Option RequestHeader
unfolding collect_cookies del_all_args
del_cookie r key =
    collect_cookies r then_if_done λ c. some (record c { cookies = del_all_args c.cookies key })

unfoldable pub del_all_cookies : RequestHeader → Option RequestHeader
unfolding collect_cookies justhttp.Args.Slots.reset
del_all_cookies r = collect_cookies r then_if_done λ c.
    some (record c { cookies = justhttp.Args.Slots.reset c.cookies })

-- `RequestHeader.Cookie`, with the header that it leaves; nil is `none`.
unfoldable pub cookie : RequestHeader → Bytes → Option (RequestHeader × Option Bytes)
unfolding collect_cookies peek_arg
cookie r key = collect_cookies r then_if_done λ c. some (c, peek_arg c.cookies.visible key)
