-- ===== src/Header/Response/Fields/Deleted.antt =====
-- What is deleted from the header of a response is gone.
use justhttp.Base.{
  ◌≡◌, ap, ◌∙◌, inl, inr, not, ◌&&◌, [], arith, if◌then◌else◌, Bool-cases, Bytes, codes, equal,
}
use justhttp.Args.Slots.{Slots}
use justhttp.Cookie.Scan.{append_response_cookie_bytes}
use justhttp.Header.Key.{normalize_header_key}
use justhttp.Header.Request.Fields.Deleted.{peek_bytes-del_all_args, named}
use justhttp.Header.Response.{ResponseHeader, content_type_of}
use justhttp.Header.Response.Fields.{clear_special, del_key, del, peek_key, peek}

disable_normalizing-del_key :
    (r : ResponseHeader) (key : Bytes) → (del_key r key).disable_normalizing ≡ r.disable_normalizing
unfolding del_key clear_special
disable_normalizing-del_key r key = ground arith

-- What is left where a name in its normal form is deleted.
abbrev pub left : ResponseHeader → Bytes → Bytes
left r key =
    if not r.no_default_content_type && equal key (codes "Content-Type")
    then codes "text/plain; charset=utf-8"
    else []

module _ (r : ResponseHeader) where
  abbrev Gone : Bytes → Type 0
  Gone key = peek_key (del_key r key) key ≡ left r key

  Gone-special :
      Gone (codes "Content-Type")
      × Gone (codes "Server")
      × Gone (codes "Set-Cookie")
      × Gone (codes "Content-Length")
      × Gone (codes "Connection")
  unfolding peek_key del_key clear_special justhttp.Args.Slots.reset append_response_cookie_bytes
      equal content_type_of
  Gone-special =
      let plain = Bool-cases r.no_default_content_type in
      (
        ground (arith, plain),
        ground (arith, plain),
        ground (arith, plain),
        ground (arith, plain),
        peek_bytes-del_all_args r.h (codes "Connection") ∙ ground (arith, plain),
      )

  peek_key-del_key : (key : Bytes) → Gone key
  unfolding peek_key del_key clear_special
  peek_key-del_key key =
      let (type, server, cookie, size, connection) = Gone-special in
      elim (named key (codes "Content-Type")) [
        | inl e ↦ rw e type
        | inr t ↦ elim (named key (codes "Server")) [
          | inl e ↦ rw e server
          | inr a ↦ elim (named key (codes "Set-Cookie")) [
            | inl e ↦ rw e cookie
            | inr c ↦ elim (named key (codes "Content-Length")) [
              | inl e ↦ rw e size
              | inr s ↦ elim (named key (codes "Connection")) [
                | inl e ↦ rw e connection
                | inr n ↦ ground (arith, t, a, c, s, n, peek_bytes-del_all_args r.h key)
              ]
            ]
          ]
        ]
      ]

-- After `Del` of a name in any spelling, `Peek` of it gives nothing, unless it is the content type
-- and there is one by default, which it gives then.
pub peek-del_default :
    (r : ResponseHeader) (key : Bytes)
    → peek (del r key) key ≡ left r (normalize_header_key key r.disable_normalizing)
unfolding peek del
peek-del_default r key =
    let normal = normalize_header_key key r.disable_normalizing in
    ap (λ b. peek_key (del_key r normal) (normalize_header_key key b))
      (disable_normalizing-del_key r normal)
    ∙ peek_key-del_key r normal
