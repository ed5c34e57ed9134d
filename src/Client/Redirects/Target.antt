-- ===== src/Client/Redirects/Target.antt =====
-- Where a response redirects to: `StatusCodeIsRedirect` and `getRedirectURL`.
use justhttp.Base.{ℕ, ◌≡◌, refl, sym, ◌⊎◌, true, false, none, some, arith, Bytes}
use justhttp.Uri.State.{Uri}
use justhttp.Uri.Print.{Updated, done, panics, unfinished, update_bytes, full_uri}
use justhttp.Client.Redirects.{acquired_uri, get_redirect_url, status_code_is_redirect}

-- The statuses that redirect.
abbrev pub Redirects : ℕ → Type 0
Redirects n = (n ≡ 301) ⊎ ((n ≡ 302) ⊎ ((n ≡ 303) ⊎ ((n ≡ 307) ⊎ (n ≡ 308))))

-- A location is taken relative to the URL that was requested, which itself is parsed as one for a
-- new URI.
abbrev pub RedirectsTo : Bytes → Bytes → Bytes → Type 0
RedirectsTo url location next =
    (base : Uri) × (u : Uri) × (update_bytes acquired_uri url ≡ done base)
    × (update_bytes base location ≡ done u)
    × (next ≡ full_uri u)

some_inj : {u v : Bytes} → some u ≡ some v → u ≡ v
some_inj h = cc

pub status_code_is_redirect-Redirects : (n : ℕ) → status_code_is_redirect n ≡ true → Redirects n
unfolding status_code_is_redirect
status_code_is_redirect-Redirects n h = ground arith

pub Redirects-status_code_is_redirect : (n : ℕ) → status_code_is_redirect n ≡ false → ¬ Redirects n
unfolding status_code_is_redirect
Redirects-status_code_is_redirect n h v = ground (arith, h, v)

pub get_redirect_url-RedirectsTo :
    (url location next : Bytes)
    → get_redirect_url url location ≡ some next
    → RedirectsTo url location next
unfolding get_redirect_url
get_redirect_url-RedirectsTo url location next e = by_base (update_bytes acquired_uri url) refl e
  where
    by_target :
        (base : Uri) (t : Updated)
        → update_bytes acquired_uri url ≡ done base
        → update_bytes base location ≡ t
        → (elim t [ panics ↦ none | unfinished ↦ none | done u ↦ some (full_uri u) ]) ≡ some next
        → RedirectsTo url location next
    by_target base panics eb et h = cc
    by_target base unfinished eb et h = cc
    by_target base (done u) eb et h = (base, u, eb, et, some_inj (sym h))

    by_base :
        (b : Updated)
        → update_bytes acquired_uri url ≡ b
        → (elim b [
          | panics ↦ none
          | unfinished ↦ none
          | done base ↦ elim (update_bytes base location) [
            | panics ↦ none
            | unfinished ↦ none
            | done u ↦ some (full_uri u)
          ]
        ])
          ≡ some next
        → RedirectsTo url location next
    by_base panics eb h = cc
    by_base unfinished eb h = cc
    by_base (done base) eb h = by_target base (update_bytes base location) eb refl h

pub RedirectsTo-get_redirect_url :
    (url location : Bytes)
    → get_redirect_url url location ≡ none
    → (next : Bytes) → ¬ RedirectsTo url location next
unfolding get_redirect_url
RedirectsTo-get_redirect_url url location h next (base, u, eb, eu, en) =
    let e : get_redirect_url url location ≡ some (full_uri u) =
      rw (get_redirect_url, eb, eu) refl in
    absurd (ground (arith, e, h))
