-- ===== src/Auth/Guards.antt =====
-- Who gets past the middleware.
use my_eink_library.Common.{
  if◌then◌else◌, lt→ltb, Option-cases, find?, All, Text, is_empty, ℕ, ◌+◌, ◌≤◌, ◌<◌, ◌≡◌, refl, sym,
  ap, ◌∙◌, ◌↔◌, inl, inr, Bool, true, false, not, Option, none, some, [], arith,
}
use my_eink_library.Users.{Store, Bcrypt, Permission, UserRow}
use my_eink_library.Users.Permissions.{can}
use my_eink_library.Auth.Session.{
  Authenticator, verify_session, issue_restricted_session, Cookie, issue_session_with, bar,
  name_has_bytes, session_payload,
}
use my_eink_library.Auth.Middleware.{
  Request, Context, Response, forbidden, served, login_redirect, by_token, require_auth,
  require_full, require_permission,
}
use my_eink_library.Encoding.Utf8.{Bytes, utf8}
use my_eink_library.Encoding.Split.{Lacks}
use my_eink_library.Encoding.Decimal.{max_int64}
use my_eink_library.Encoding.Base64.{IsByte}
use my_eink_library.Auth.RoundTrip.{verify_session-issue}

module _ (b : Bcrypt) (mac : Bytes → Bytes) (now : ℕ) (a : Authenticator) (s : Store)
    (r : Request) where
  -- The context that a handler behind RequirePermission is served with, of the session found.
  passes :
      (c d : Context) (p : Permission)
      → (if d.restricted
          then login_redirect r
          else if not (can s d.username p)
          then forbidden
          else served d)
        ≡ served c
      → (d ≡ c) × (d.restricted ≡ false) × (can s d.username p ≡ true)
  passes c d p h = ground arith

  answered :
      (p : Permission) (name : Text) (restricted : Bool)
      → verify_session mac now s r.cookie ≡ some (name, restricted)
      → (require_permission b mac now a s r p served).0 ≡ (
          if restricted
          then login_redirect r
          else if not (can s name p)
          then forbidden
          else served (record { username = name; restricted = restricted }))
  unfolding require_permission require_full require_auth
  answered p name restricted found = rw (require_permission, require_full, require_auth, found)

  admitted :
      (p : Permission) (c : Context) (name : Text) (restricted : Bool)
      → verify_session mac now s r.cookie ≡ some (name, restricted)
      → (Path Context (record { username = name; restricted = restricted }) c)
        × (restricted ≡ false)
        × (can s name p ≡ true)
      → (verify_session mac now s r.cookie ≡ some (c.username, false))
        × (c.restricted ≡ false)
        × (can s c.username p ≡ true)
  admitted p c name restricted found (same, full, may) = ground (arith, found, same, full, may)

  -- A handler behind RequirePermission is reached exactly by a request whose cookie is a full session
  -- of a user who has the permission.
  pub require_permission_iff :
      (p : Permission) (c : Context)
      → ((require_permission b mac now a s r p served).0 ≡ served c) ↔ (
          (verify_session mac now s r.cookie ≡ some (c.username, false))
          × (c.restricted ≡ false)
          × (can s c.username p ≡ true))
  unfolding require_permission require_full require_auth
  require_permission_iff p c = (
    λ h. elim (Option-cases (verify_session mac now s r.cookie)) [
      | inl missing ↦ elim (Option-cases (by_token b mac now a s r)) [
        | inl no_token ↦ ground (arith, h, missing, no_token)
        | inr (name, token) ↦ ground (arith, h, missing, token)
      ]
      | inr ((name, restricted), found) ↦
          admitted p c name restricted found
            (passes c _ p (sym (answered p name restricted found) ∙ h))
    ],
    λ (h, k, g). rw (require_permission, require_full, require_auth, h, k, g),
  )

-- The value of the cookie that a response sets, as the next request sends it.
abbrev pub sent_back : Option Cookie → Option Text
sent_back none = none
sent_back (some c) = some c.value

module _ (b : Bcrypt) (mac : Bytes → Bytes) (a : Authenticator) where
  cookie_set :
      (now : ℕ) (s : Store) (r : Request) (name : Text) (next : Context → Response)
      → verify_session mac now s r.cookie ≡ none
      → by_token b mac now a s r ≡ some name
      → sent_back (require_auth b mac now a s r next).1
        ≡ some (issue_session_with mac now a name true).value
  unfolding require_auth issue_restricted_session
  cookie_set now s r name next missing token = rw (require_auth, missing, token) refl

  token_restricted :
      (now : ℕ) (s : Store) (r : Request) (name : Text) (next : Context → Response)
      → verify_session mac now s r.cookie ≡ none
      → by_token b mac now a s r ≡ some name
      → ((require_auth b mac now a s r next).0
          ≡ next (record { username = name; restricted = true }))
        × ((require_full b mac now a s r next).0 ≡ login_redirect r)
  unfolding require_full require_auth
  token_restricted now s r name next missing token =
      (rw (require_auth, missing, token) refl, rw (require_full, require_auth, missing, token) refl)

  served_restricted :
      (now : ℕ) (s : Store) (r : Request) (name : Text) (next : Context → Response)
      → verify_session mac now s r.cookie ≡ some (name, true)
      → (require_auth b mac now a s r next
          ≡ (next (record { username = name; restricted = true }), none))
        × (require_full b mac now a s r next ≡ (login_redirect r, none))
  unfolding require_full require_auth
  served_restricted now s r name next found =
      (rw (require_auth, found) refl, rw (require_full, require_auth, found) refl)

  -- Where MACs are bytes, a request without a valid session but with the bookmark token of an enabled
  -- user, whose name is not empty and holds no bar, is served by RequireAuth as the user's restricted
  -- session and sent to the login page by RequireFull, and so is, until the lifetime of the cookie that
  -- RequireAuth sets, within an int64, has passed, a request with that cookie alone.
  pub require_auth-by_token :
      (now later : ℕ) (s : Store) (u : UserRow) (r : Request) (next_path : Text)
      (next : Context → Response)
      → verify_session mac now s r.cookie ≡ none
      → by_token b mac now a s r ≡ some u.username
      → is_empty u.username ≡ false
      → Lacks bar u.username
      → find? (name_has_bytes (utf8 u.username)) s.users ≡ some u
      → u.enabled ≡ true
      → now + a.ttl ≤ max_int64
      → All IsByte (mac (session_payload u.username (now + a.ttl) true))
      → later < now + a.ttl
      → let again : Request = record {
        cookie = sent_back (require_auth b mac now a s r next).1;
        token = [];
        next_path = next_path;
      } in
        ((require_auth b mac now a s r next).0
          ≡ next (record { username = u.username; restricted = true }))
        × ((require_full b mac now a s r next).0 ≡ login_redirect r)
        × (require_auth b mac later a s again next
            ≡ (next (record { username = u.username; restricted = true }), none))
        × (require_full b mac later a s again next ≡ (login_redirect again, none))
  require_auth-by_token now later s u r next_path next missing token named plain found on small
        mac_bytes early =
      let again : Request = record {
        cookie = sent_back (require_auth b mac now a s r next).1;
        token = [];
        next_path = next_path;
      } in
      let (serves, sends_away) = token_restricted now s r u.username next missing token in
      let (serves_again, sends_again) = served_restricted later s again u.username next (
        ap (verify_session mac later s) (cookie_set now s r u.username next missing token)
        ∙ verify_session-issue mac now later a s u true named plain found on small mac_bytes
        ∙ rw (lt→ltb later (now + a.ttl) early) refl) in
      (serves, sends_away, serves_again, sends_again)
