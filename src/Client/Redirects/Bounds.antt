-- ===== src/Client/Redirects/Bounds.antt =====
-- The requests that following redirects comes to.
use mathlib.Core.Path.{subst}
use justhttp.Base.{
  ℕ, zero, suc, ◌+◌, ◌≤◌, ◌≡◌, refl, ◌∙◌, ◌⊎◌, inl, inr, Bool, true, false, Option, none, some,
  List, [], ◌∷◌, arith, if◌then◌else◌, Bool-cases, length, Bytes,
}
use justhttp.Client.Redirects.Target.{
  Redirects, RedirectsTo, status_code_is_redirect-Redirects, Redirects-status_code_is_redirect,
  get_redirect_url-RedirectsTo, RedirectsTo-get_redirect_url,
}
use justhttp.Client.Redirects.{
  get_redirect_url, status_code_is_redirect, Round, bad_uri, failed, responded, RedirectError,
  too_many_redirects, missing_location, uri_error, do_error, Followed, ended, behind_url, follow,
  do_request_follow_redirects,
}

-- Each URL but the first is where the response to the one before it redirects.
abbrev pub Chained : (ℕ → Bytes → Round) → ℕ → List Bytes → Type 0
Chained round i [] = Unit
Chained round i (u ∷ []) = Unit
Chained round i (u ∷ v ∷ urls) =
    ((code : ℕ) × (location : Bytes) × (round i u ≡ responded code location)
      × Redirects code
      × RedirectsTo u location v)
    × Chained round (i + 1) (v ∷ urls)

-- What the last request came to.
abbrev pub last_round : (ℕ → Bytes → Round) → ℕ → List Bytes → Round
last_round round i [] = bad_uri
last_round round i (u ∷ []) = round i u
last_round round i (u ∷ v ∷ urls) = last_round round (i + 1) (v ∷ urls)

-- Why no further request was made, where `left` redirects were allowed.
abbrev pub Explains : ℕ → Round → Followed → Option RedirectError → Type 0
Explains left r d none =
    (location : Bytes) × (r ≡ responded d.status_code location) × ¬ Redirects d.status_code
Explains left r d (some too_many_redirects) =
    (location : Bytes) × (r ≡ responded d.status_code location)
    × Redirects d.status_code
    × (length d.urls ≡ left + 1)
Explains left r d (some missing_location) =
    (r ≡ responded d.status_code []) × Redirects d.status_code
Explains left r d (some uri_error) = (r ≡ bad_uri) × (d.status_code ≡ 0)
Explains left r d (some (do_error e)) = r ≡ failed e

abbrev pub StartsWith : Bytes → List Bytes → Type 0
StartsWith url [] = ⊥
StartsWith url (u ∷ urls) = u ≡ url

pub record IsFollowed (round : ℕ → Bytes → Round) (left i : ℕ) (url : Bytes) (d : Followed)
    : Type 0 where
  pub first : StartsWith url d.urls
  pub bounded : length d.urls ≤ left + 1
  pub chained : Chained round i d.urls
  pub explained : Explains left (last_round round i d.urls) d d.failure

-- A response that was met within the redirects that are left redirects from its URL to a location
-- that leads nowhere: for it `getRedirectURL` does not return.
abbrev pub Stuck : (ℕ → Bytes → Round) → ℕ → ℕ → Bytes → Type 0
Stuck round zero i url = ⊥
Stuck round (suc left) i url =
    (code : ℕ) × (location : Bytes) × (round i url ≡ responded code location)
    × Redirects code
    × (((next : Bytes) → ¬ RedirectsTo url location next)
        ⊎ ((next : Bytes) × RedirectsTo url location next × Stuck round left (i + 1) next))

abbrev pub FollowedBy : (ℕ → Bytes → Round) → ℕ → ℕ → Bytes → Option Followed → Type 0
FollowedBy round left i url none = Stuck round left i url
FollowedBy round left i url (some d) = IsFollowed round left i url d

module _ (round : ℕ → Bytes → Round) where
  ended-IsFollowed :
      (left i code : ℕ) (url : Bytes) (failure : Option RedirectError)
      → Explains left (round i url) (ended url code failure) failure
      → IsFollowed round left i url (ended url code failure)
  ended-IsFollowed left i code url failure v = record {
    first = refl;
    bounded = omega arith;
    chained = tt;
    explained = v;
  }

  -- One request in front of the others.
  Explains-behind :
      (left : ℕ) (r : Round) (url : Bytes) (d : Followed) (failure : Option RedirectError)
      → Explains left r d failure
      → Explains (suc left) r (record d { urls = url ∷ d.urls }) failure
  Explains-behind left r url d none v = v
  Explains-behind left r url d (some too_many_redirects) (location, e, redirects, n) =
      (location, e, redirects, omega arith)
  Explains-behind left r url d (some missing_location) v = v
  Explains-behind left r url d (some uri_error) v = v
  Explains-behind left r url d (some (do_error e)) v = v

  -- The URL that redirects in front of a list that starts with where it redirects to.
  chain_behind :
      (i code : ℕ) (url next location : Bytes) (urls : List Bytes)
      → round i url ≡ responded code location
      → Redirects code
      → RedirectsTo url location next
      → StartsWith next urls
      → Chained round (i + 1) urls
      → Chained round i (url ∷ urls)
  chain_behind i code url next location [] e redirects (base, u, eb, eu, en) starts v =
      absurd starts
  chain_behind i code url next location (w ∷ urls) e redirects (base, u, eb, eu, en) starts v =
      ((code, location, e, redirects, (base, u, eb, eu, starts ∙ en)), v)

  last_behind :
      (i : ℕ) (url next : Bytes) (urls : List Bytes)
      → StartsWith next urls
      → last_round round (i + 1) urls ≡ last_round round i (url ∷ urls)
  last_behind i url next [] starts = absurd starts
  last_behind i url next (u ∷ urls) starts = refl

  behind_url-FollowedBy :
      (left i code : ℕ) (url next location : Bytes) (o : Option Followed)
      → round i url ≡ responded code location
      → Redirects code
      → RedirectsTo url location next
      → FollowedBy round left (i + 1) next o
      → FollowedBy round (suc left) i url (behind_url url o)
  behind_url-FollowedBy left i code url next location none e redirects to v =
      (code, location, e, redirects, inr (next, to, v))
  behind_url-FollowedBy left i code url next location (some d) e redirects to v = record {
    first = refl;
    bounded = omega (arith, v.bounded);
    chained = chain_behind i code url next location d.urls e redirects to v.first v.chained;
    explained =
        subst (λ r. Explains (suc left) r (record d { urls = url ∷ d.urls }) d.failure)
          (last_behind i url next d.urls v.first)
          (Explains-behind left (last_round round (i + 1) d.urls) url d d.failure v.explained);
  }

  -- The last round that is allowed.
  end_FollowedBy :
      (status : ℕ) (url : Bytes) (i : ℕ) (r : Round)
      → round i url ≡ r
      → FollowedBy round 0 i url (elim r [
        | bad_uri ↦ some (ended url 0 (some uri_error))
        | failed e ↦ some (ended url status (some (do_error e)))
        | responded code location ↦ some (
            ended url code (if status_code_is_redirect code then some too_many_redirects else none))
      ])
  end_FollowedBy status url i bad_uri e = ended-IsFollowed 0 i 0 url (some uri_error) (e, refl)
  end_FollowedBy status url i (failed n) e = ended-IsFollowed 0 i status url (some (do_error n)) e
  end_FollowedBy status url i (responded code location) e =
      elim (Bool-cases (status_code_is_redirect code)) [
        | inl yes_redirect ↦ rw yes_redirect (
            ended-IsFollowed 0 i code url (some too_many_redirects)
              (location, e, status_code_is_redirect-Redirects code yes_redirect, omega arith))
        | inr final ↦ rw final (
            ended-IsFollowed 0 i code url none
              (location, e, Redirects-status_code_is_redirect code final))
      ]

  -- A round with redirects left, where the next is given.
  round_FollowedBy :
      (left status : ℕ) (url : Bytes) (i : ℕ) (r : Round) (rest : ℕ → Bytes → Option Followed)
      → ((code : ℕ) (next : Bytes) → FollowedBy round left (i + 1) next (rest code next))
      → round i url ≡ r
      → FollowedBy round (suc left) i url (elim r [
        | bad_uri ↦ some (ended url 0 (some uri_error))
        | failed e ↦ some (ended url status (some (do_error e)))
        | responded code [] ↦
            some (
              ended url code (if status_code_is_redirect code then some missing_location else none))
        | responded code (c ∷ location) ↦ elim (status_code_is_redirect code) [
          | false ↦ some (ended url code none)
          | true ↦ elim (get_redirect_url url (c ∷ location)) [
            | none ↦ none
            | some next ↦ behind_url url (rest code next)
          ]
        ]
      ])
  round_FollowedBy left status url i bad_uri rest ih e =
      ended-IsFollowed (suc left) i 0 url (some uri_error) (e, refl)
  round_FollowedBy left status url i (failed n) rest ih e =
      ended-IsFollowed (suc left) i status url (some (do_error n)) e
  round_FollowedBy left status url i (responded code []) rest ih e =
      elim (Bool-cases (status_code_is_redirect code)) [
        | inl again ↦ rw again (
            ended-IsFollowed (suc left) i code url (some missing_location)
              (e, status_code_is_redirect-Redirects code again))
        | inr final ↦ rw final (
            ended-IsFollowed (suc left) i code url none
              ([], e, Redirects-status_code_is_redirect code final))
      ]
  round_FollowedBy left status url i (responded code (c ∷ location)) rest ih e =
      by_code (status_code_is_redirect code) refl (get_redirect_url url (c ∷ location)) refl
    where
      by_code :
          (b : Bool)
          → status_code_is_redirect code ≡ b
          → (o : Option Bytes) → get_redirect_url url (c ∷ location) ≡ o
          → FollowedBy round (suc left) i url (elim b [
            | false ↦ some (ended url code none)
            | true ↦ elim o [ none ↦ none | some next ↦ behind_url url (rest code next) ]
          ])
      by_code false final o eo =
          ended-IsFollowed (suc left) i code url none
            (c ∷ location, e, Redirects-status_code_is_redirect code final)
      by_code true again none eo = (
        code,
        c ∷ location,
        e,
        status_code_is_redirect-Redirects code again,
        inl (RedirectsTo-get_redirect_url url (c ∷ location) eo),
      )
      by_code true again (some next) eo =
          behind_url-FollowedBy left i code url next (c ∷ location) (rest code next) e
            (status_code_is_redirect-Redirects code again)
            (get_redirect_url-RedirectsTo url (c ∷ location) next eo) (ih code next)

  follow-FollowedBy :
      (left status : ℕ) (url : Bytes) (i : ℕ)
      → FollowedBy round left i url (follow round left status url i)
  unfolding follow
  follow-FollowedBy zero status url i = end_FollowedBy status url i (round i url) refl
  follow-FollowedBy (suc left) status url i =
      round_FollowedBy left status url i (round i url)
        (λ code next. follow round left code next (i + 1))
        (λ code next. follow-FollowedBy left code next (i + 1)) refl

-- Following at most `n` redirects makes one request and at most `n` more, each to the URL that the
-- response before it, with one of the five statuses that redirect, redirects to from its own URL; or
-- one of the responses behind at most `n - 1` others redirects to a location for which
-- `getRedirectURL` does not return. It ends without an error at the first status that is no redirect, with `ErrTooManyRedirects` at a
-- redirect behind `n` others, with `ErrMissingLocation` at one without a location, and else with
-- the error of the last request.
pub do_request_follow_redirects-FollowedBy :
    (round : ℕ → Bytes → Round) (url : Bytes) (n : ℕ)
    → FollowedBy round n 0 url (do_request_follow_redirects round url n)
unfolding do_request_follow_redirects
do_request_follow_redirects-FollowedBy round url n = follow-FollowedBy round n 0 url 0
