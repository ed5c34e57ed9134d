-- ===== src/Client/Redirects.antt =====
-- Following redirects: `doRequestFollowRedirects` and `getRedirectURL` of client.go.
pub mod Target
pub mod Bounds
use justhttp.Base.{
  ℕ, zero, suc, ◌+◌, Bool, true, false, ◌||◌, Option, none, some, List, [], ◌∷◌, ◌==◌,
  if◌then◌else◌, Bytes,
}
use justhttp.Uri.State.{Uri}
use justhttp.Uri.Print.{Updated, done, panics, unfinished, update_bytes, full_uri}

-- An acquired URI.
abbrev pub acquired_uri : Uri
acquired_uri = record {
  path_original = [];
  scheme = [];
  path = [];
  query_string = [];
  hash = [];
  host = [];
  query_args = record { visible = []; spare = [] };
  parsed_query_args = false;
  disable_path_normalizing = false;
  username = [];
  password = [];
}

-- `getRedirectURL`; `none` is a panic, or a loop that has run out of its bound.
unfoldable pub get_redirect_url : Bytes → Bytes → Option Bytes
unfolding update_bytes full_uri
get_redirect_url base_url location = elim (update_bytes acquired_uri base_url) [
  | panics ↦ none
  | unfinished ↦ none
  | done base ↦ elim (update_bytes base location) [
    | panics ↦ none
    | unfinished ↦ none
    | done u ↦ some (full_uri u)
  ]
]

-- `StatusCodeIsRedirect`.
unfoldable pub status_code_is_redirect : ℕ → Bool
status_code_is_redirect n = n == 301 || n == 302 || n == 303 || n == 307 || n == 308

-- What a round comes to: `parseURI` fails, `c.Do` fails with a numbered error, or there is a
-- response with a status and the header "Location".
pub data Round : Type 0 where
  bad_uri : Round
  failed : ℕ → Round
  responded : ℕ → Bytes → Round

pub data RedirectError : Type 0 where
  too_many_redirects missing_location uri_error : RedirectError
  do_error : ℕ → RedirectError

-- The status and the error that are returned, with the URLs that were requested.
pub record Followed : Type 0 where
  pub status_code : ℕ
  pub failure : Option RedirectError
  pub urls : List Bytes

abbrev pub ended : Bytes → ℕ → Option RedirectError → Followed
ended url status_code failure = record {
  status_code = status_code;
  failure = failure;
  urls = url ∷ [];
}

-- The same, behind a URL that was requested before.
abbrev pub behind_url : Bytes → Option Followed → Option Followed
behind_url url none = none
behind_url url (some d) = some (record d { urls = url ∷ d.urls })

-- `round i url` is what the round behind `i` others comes to.
module _ (round : ℕ → Bytes → Round) where
  -- The loop, with the redirects that are left, the status of the round before, and the URL.
  unfoldable pub follow : ℕ → ℕ → Bytes → ℕ → Option Followed
  unfolding status_code_is_redirect get_redirect_url
  follow zero status url i = elim (round i url) [
    | bad_uri ↦ some (ended url 0 (some uri_error))
    | failed e ↦ some (ended url status (some (do_error e)))
    | responded code location ↦
        some
          (ended url code (if status_code_is_redirect code then some too_many_redirects else none))
  ]
  follow (suc left) status url i = elim (round i url) [
    | bad_uri ↦ some (ended url 0 (some uri_error))
    | failed e ↦ some (ended url status (some (do_error e)))
    | responded code [] ↦
        some (ended url code (if status_code_is_redirect code then some missing_location else none))
    | responded code (c ∷ location) ↦ elim (status_code_is_redirect code) [
      | false ↦ some (ended url code none)
      | true ↦ elim (get_redirect_url url (c ∷ location)) [
        | none ↦ none
        | some next ↦ behind_url url (follow left code next (i + 1))
      ]
    ]
  ]

  -- `doRequestFollowRedirects`, for a `maxRedirectsCount` that is not negative.
  unfoldable pub do_request_follow_redirects : Bytes → ℕ → Option Followed
  unfolding follow
  do_request_follow_redirects url max_redirects_count = follow max_redirects_count 0 url 0
