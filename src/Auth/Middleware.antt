-- ===== src/Auth/Middleware.antt =====
-- internal/auth/middleware.go: a handler is a function of the request's context to its response.
use my_eink_library.Common.{
  if◌then◌else◌, Text, codes, is_empty, ℕ, Bool, true, not, Option, none, some, ◌++◌,
}
use my_eink_library.Users.{Store, Bcrypt, Permission, manage_users, manage_server}
use my_eink_library.Users.Permissions.{can}
use my_eink_library.Users.Tokens.{verify_bookmark_token}
use my_eink_library.Auth.Session.{Authenticator, Cookie, verify_session, issue_restricted_session}
use my_eink_library.Encoding.Utf8.{Bytes}

-- `next_path` is the escaped request URI, `token` the query parameter, empty if it is missing.
pub record Request : Type 0 where
  pub cookie : Option Text
  pub token : Text
  pub next_path : Text

pub record Context : Type 0 where
  pub username : Text
  pub restricted : Bool

-- `served` is the response of the handler behind the middleware.
pub data Response : Type 0 where
  redirect : Text → Response
  forbidden : Response
  served : Context → Response

abbrev pub login_redirect : Request → Response
login_redirect r = redirect (codes "/login?next=" ++ r.next_path)

module _ (b : Bcrypt) (mac : Bytes → Bytes) (now : ℕ) (a : Authenticator) (s : Store)
    (r : Request) where
  -- The bookmark token of a request that carries no valid session.
  unfoldable pub by_token : Option Text
  by_token = if is_empty r.token then none else verify_bookmark_token b r.token s

  -- The response, and the cookie that is set on the way.
  unfoldable pub require_auth : (Context → Response) → Response × Option Cookie
  require_auth next = elim (verify_session mac now s r.cookie) [
    | some (username, restricted) ↦
        (next (record { username = username; restricted = restricted }), none)
    | none ↦ elim by_token [
      | some username ↦ (
        next (record { username = username; restricted = true }),
        some (issue_restricted_session mac now a username),
      )
      | none ↦ (login_redirect r, none)
    ]
  ]

  unfoldable pub require_full : (Context → Response) → Response × Option Cookie
  require_full next = require_auth (λ c. if c.restricted then login_redirect r else next c)

  unfoldable pub require_permission : Permission → (Context → Response) → Response × Option Cookie
  require_permission p next =
      require_full (λ c. if not (can s c.username p) then forbidden else next c)

  unfoldable pub require_manage_users : (Context → Response) → Response × Option Cookie
  unfolding require_permission
  require_manage_users = require_permission manage_users

  unfoldable pub require_manage_server : (Context → Response) → Response × Option Cookie
  unfolding require_permission
  require_manage_server = require_permission manage_server
