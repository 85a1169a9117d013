-- ===== src/Auth/Session.antt =====
-- internal/auth/session.go
use my_eink_library.Common.{
  leb, if◌then◌else◌, Text, codes, text_eq, is_empty, ℕ, ◌+◌, Bool, true, false, not, ◌||◌, Option,
  none, some, List, [], ◌∷◌, ◌++◌,
}
use my_eink_library.Encoding.Base64.{encode, decode}
use my_eink_library.Encoding.Decimal.{format_int, parse_int}
use my_eink_library.Encoding.Split.{split_n}
use my_eink_library.Users.{Store, Bcrypt, UserRow}
use my_eink_library.Users.Accounts
use my_eink_library.Users.Listing.{user_by}
use my_eink_library.Encoding.Utf8.{Bytes, utf8}

-- The lifetime in seconds is what SetTTL changes.
pub record Authenticator : Type 0 where
  pub ttl : ℕ

unfoldable pub set_ttl : ℕ → Authenticator → Authenticator
set_ttl ttl a = record a { ttl = ttl }

-- What varies in the cookies that the program sets; `expires` is none for MaxAge -1.
pub record Cookie : Type 0 where
  pub value : Text
  pub expires : Option ℕ

unfoldable pub clear_session : Cookie
clear_session = record { value = []; expires = none }

abbrev pub bar : ℕ
bar = b'|'

abbrev pub restricted_mark : Text
restricted_mark = codes "restricted"

-- The payload as its bytes.
unfoldable pub session_payload : Text → ℕ → Bool → Bytes
unfolding utf8
session_payload username expires restricted =
    if restricted
    then utf8 username ++ bar ∷ (format_int expires ++ bar ∷ restricted_mark)
    else utf8 username ++ bar ∷ format_int expires

module _ (b : Bcrypt) where
  unfoldable pub check_password : Text → Text → Store → Bool
  check_password = Accounts.check_password b

-- len(parts) == 3 && parts[2] == "restricted", of the parts behind the first two
abbrev pub marks_restricted : List Bytes → Bool
marks_restricted (mark ∷ []) = text_eq mark restricted_mark
marks_restricted _ = false

-- The user whose name has these bytes.
abbrev pub name_has_bytes : Bytes → UserRow → Bool
name_has_bytes name w = text_eq (utf8 w.username) name

-- The session that the parts of a payload describe at time `now`.
unfoldable pub session_of : ℕ → Store → List Bytes → Option (Text × Bool)
session_of now s (name ∷ exp ∷ rest) = if is_empty name then none else elim (parse_int exp) [
  | none ↦ none
  | some (negative, e) ↦
      if negative || leb e now then none else elim (user_by (name_has_bytes name) s) [
        | none ↦ none
        | some u ↦ if not u.enabled then none else some (u.username, marks_restricted rest)
      ]
]
session_of now s _ = none

-- A payload and a MAC are bytes, a token is ASCII.
module _ (mac : Bytes → Bytes) where
  unfoldable pub sign : Bytes → Text
  sign payload = encode payload ++ b'.' ∷ encode (mac payload)

  unfoldable pub verify_parts : List Text → Option Bytes
  verify_parts (p ∷ q ∷ []) = elim (decode p) [
    | none ↦ none
    | some payload ↦ elim (decode q) [
      | none ↦ none
      | some signature ↦ if text_eq (mac payload) signature then some payload else none
    ]
  ]
  verify_parts _ = none

  unfoldable pub verify : Text → Option Bytes
  unfolding verify_parts
  verify token = verify_parts (split_n b'.' 2 token)

  unfoldable pub issue_session_with : ℕ → Authenticator → Text → Bool → Cookie
  issue_session_with now a username restricted = record {
    value = sign (session_payload username (now + a.ttl) restricted);
    expires = some (now + a.ttl);
  }

  unfoldable pub issue_session : ℕ → Authenticator → Text → Cookie
  unfolding issue_session_with
  issue_session now a username = issue_session_with now a username false

  unfoldable pub issue_restricted_session : ℕ → Authenticator → Text → Cookie
  unfolding issue_session_with
  issue_restricted_session now a username = issue_session_with now a username true

  -- The argument is the value of the request's cookie, if it has one.
  unfoldable pub verify_session : ℕ → Store → Option Text → Option (Text × Bool)
  verify_session now s none = none
  verify_session now s (some value) = if is_empty value then none else elim (verify value) [
    | none ↦ none
    | some payload ↦ session_of now s (split_n bar 3 payload)
  ]
