-- ===== src/Header/Request/Fields/Deleted.antt =====
-- What is deleted from the header of a request is gone.
use justhttp.Base.{
  ◌≡◌, refl, ap, ◌∙◌, ◌⊎◌, inl, inr, false, [], arith, Bool-cases, Bytes, codes, equal, equal_iff,
  equal_self,
}
use justhttp.Args.Slots.{Slots}
use justhttp.Args.Store.{del_all_args}
use justhttp.Args.Store.Delete.{peek_arg-del_all_args}
use justhttp.Cookie.Scan.{append_request_cookie_bytes}
use justhttp.Header.Key.{normalize_header_key}
use justhttp.Header.Request.{RequestHeader}
use justhttp.Header.Request.Fields.{clear_special, del_key, del, peek_bytes, peek_key, peek}

pub peek_bytes-del_all_args : (h : Slots) (key : Bytes) → peek_bytes (del_all_args h key) key ≡ []
unfolding peek_bytes
peek_bytes-del_all_args h key =
    rw (peek_bytes, peek_arg-del_all_args h key key, equal_self key) refl

pub named : (key name : Bytes) → (key ≡ name) ⊎ (equal key name ≡ false)
named key name = elim (Bool-cases (equal key name)) [
  | inl same ↦ inl ((equal_iff key name).0 same)
  | inr other ↦ inr other
]

disable_normalizing-del_key :
    (r : RequestHeader) (key : Bytes) → (del_key r key).disable_normalizing ≡ r.disable_normalizing
unfolding del_key clear_special
disable_normalizing-del_key r key = ground arith

module _ (r : RequestHeader) where
  abbrev Gone : Bytes → Type 0
  Gone key = peek_key (del_key r key) key ≡ []

  Gone-special :
      Gone (codes "Host")
      × Gone (codes "Content-Type")
      × Gone (codes "User-Agent")
      × Gone (codes "Cookie")
      × Gone (codes "Content-Length")
      × Gone (codes "Connection")
  unfolding peek_key del_key clear_special justhttp.Args.Slots.reset append_request_cookie_bytes
      equal
  Gone-special = (
    refl,
    refl,
    refl,
    elim (Bool-cases r.cookies_collected) [
      | inl collected ↦ rw collected refl
      | inr not_yet ↦ rw not_yet (peek_bytes-del_all_args r.h (codes "Cookie"))
    ],
    refl,
    peek_bytes-del_all_args r.h (codes "Connection"),
  )

  peek_key-del_key : (key : Bytes) → Gone key
  unfolding peek_key del_key clear_special
  peek_key-del_key key =
      let (host, type, agent, cookie, size, connection) = Gone-special in
      elim (named key (codes "Host")) [
        | inl e ↦ rw e host
        | inr h ↦ elim (named key (codes "Content-Type")) [
          | inl e ↦ rw e type
          | inr t ↦ elim (named key (codes "User-Agent")) [
            | inl e ↦ rw e agent
            | inr a ↦ elim (named key (codes "Cookie")) [
              | inl e ↦ rw e cookie
              | inr c ↦ elim (named key (codes "Content-Length")) [
                | inl e ↦ rw e size
                | inr s ↦ elim (named key (codes "Connection")) [
                  | inl e ↦ rw e connection
                  | inr n ↦ ground (arith, h, t, a, c, s, n, peek_bytes-del_all_args r.h key)
                ]
              ]
            ]
          ]
        ]
      ]

-- After `Del` of a name in any spelling, `Peek` of it gives nothing, be it the name of a field, of
-- the cookies or of another header.
pub peek-del : (r : RequestHeader) (key : Bytes) → peek (del r key) key ≡ []
unfolding peek del
peek-del r key =
    let normal = normalize_header_key key r.disable_normalizing in
    ap (λ b. peek_key (del_key r normal) (normalize_header_key key b))
      (disable_normalizing-del_key r normal)
    ∙ peek_key-del_key r normal
