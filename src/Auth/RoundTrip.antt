-- ===== src/Auth/RoundTrip.antt =====
-- An issued session cookie read back by VerifySession.
use my_eink_library.Common.{
  ltb, leb, if◌then◌else◌, find?, All, All-append, Text, text_eq, is_empty, ℕ, ◌+◌, ◌≤◌, ◌≡◌, refl,
  Bool, true, false, Option, none, some, List, [], ◌∷◌, ◌++◌, arith,
}
use my_eink_library.Encoding.Base64.{IsByte, encode}
use my_eink_library.Encoding.Decimal.{
  format_int, max_int64, is_digit, parse_int-format_int, format_int_plain,
}
use my_eink_library.Encoding.Split.{split_n, cut_at, cut-Lacks, Lacks}
use my_eink_library.Users.{UserRow, Store}
use my_eink_library.Users.Listing.{user_by, scan_user}
use my_eink_library.Auth.Session.{
  Authenticator, bar, restricted_mark, session_payload, session_of, sign, issue_session_with,
  verify_session, marks_restricted, name_has_bytes,
}
use my_eink_library.Auth.Signature.{verify-sign}
use my_eink_library.Encoding.Utf8.{utf8, Bytes, utf8-IsByte, utf8-Lacks, utf8_given}

pub digits_lack_bar : (s : Text) → All (λ c. is_digit c ≡ true) s → Lacks bar s
digits_lack_bar [] _ = tt
digits_lack_bar (c ∷ s) (d, ds) = ((λ e. ground arith), digits_lack_bar s ds)

pub digits_bytes : (s : Text) → All (λ c. is_digit c ≡ true) s → All IsByte s
digits_bytes [] _ = tt
digits_bytes (c ∷ s) (d, ds) = (ground arith, digits_bytes s ds)

pub payload_bytes :
    (username : Text) (expires : ℕ) (restricted : Bool)
    → All IsByte (session_payload username expires restricted)
unfolding session_payload
payload_bytes username expires true = All-append IsByte (utf8 username) _ (utf8-IsByte username) (
  omega arith,
  All-append IsByte (format_int expires) _ (digits_bytes _ (format_int_plain expires))
      (omega arith),
)
payload_bytes username expires false =
    All-append IsByte (utf8 username) _ (utf8-IsByte username)
      (omega arith, digits_bytes _ (format_int_plain expires))

abbrev mark_parts : Bool → List Text
mark_parts true = restricted_mark ∷ []
mark_parts false = []

pub payload_parts :
    (username : Text) (expires : ℕ) (restricted : Bool)
    → Lacks bar username
    → split_n bar 3 (session_payload username expires restricted)
      ≡ utf8 username ∷ format_int expires ∷ mark_parts restricted
unfolding session_payload split_n
payload_parts username expires true h = ground (
  arith,
  cut_at bar (utf8 username) (format_int expires ++ bar ∷ restricted_mark)
      (utf8-Lacks bar username (omega arith) h),
  cut_at bar (format_int expires) restricted_mark (digits_lack_bar _ (format_int_plain expires)),
)
payload_parts username expires false h = ground (
  arith,
  cut_at bar (utf8 username) (format_int expires) (utf8-Lacks bar username (omega arith) h),
  cut-Lacks bar (format_int expires) (digits_lack_bar _ (format_int_plain expires)),
)

-- What the parts of a well-formed payload of an enabled user say.
pub session_of_parts :
    (now expires : ℕ) (s : Store) (u : UserRow) (rest : List Text)
    → is_empty u.username ≡ false
    → find? (name_has_bytes (utf8 u.username)) s.users ≡ some u
    → u.enabled ≡ true
    → expires ≤ max_int64
    → session_of now s (utf8 u.username ∷ format_int expires ∷ rest)
      ≡ (if leb expires now then none else some (u.username, marks_restricted rest))
unfolding session_of user_by scan_user
session_of_parts now expires s u rest named found on small =
    ground (arith, parse_int-format_int expires small, found, utf8_given u.username named)

mark_kept :
    (expires now : ℕ) (name : Text) (r : Bool)
    → if◌then◌else◌ {A = Option (Text × Bool)}
        (leb expires now)
        none
        (some (name, marks_restricted (mark_parts r)))
      ≡ (if ltb now expires then some (name, r) else none)
unfolding text_eq
mark_kept expires now name true = ground arith
mark_kept expires now name false = ground arith

is_empty_append : (p q : Text) (c : ℕ) → is_empty (p ++ c ∷ q) ≡ false
is_empty_append [] q c = refl
is_empty_append (d ∷ p) q c = refl

module _ (mac : Bytes → Bytes) where
  sign_given : (payload : Text) → is_empty (sign mac payload) ≡ false
  unfolding sign
  sign_given payload = is_empty_append (encode payload) (encode (mac payload)) b'.'

  pub verify_session-sign :
      (now : ℕ) (s : Store) (payload : Text)
      → All IsByte payload
      → All IsByte (mac payload)
      → verify_session mac now s (some (sign mac payload))
        ≡ session_of now s (split_n bar 3 payload)
  unfolding verify_session
  verify_session-sign now s payload bytes mac_bytes =
      ground (arith, sign_given payload, verify-sign mac payload bytes mac_bytes)

  -- Where MACs are bytes, the cookie issued to an enabled user whose name is not empty and holds no bar,
  -- for a lifetime that ends within an int64, is read back as that user's session, restricted or not as
  -- it was issued, until its lifetime has passed, and as none from then on.
  pub verify_session-issue :
      (issued now : ℕ) (a : Authenticator) (s : Store) (u : UserRow) (restricted : Bool)
      → is_empty u.username ≡ false
      → Lacks bar u.username
      → find? (name_has_bytes (utf8 u.username)) s.users ≡ some u
      → u.enabled ≡ true
      → issued + a.ttl ≤ max_int64
      → All IsByte (mac (session_payload u.username (issued + a.ttl) restricted))
      → verify_session mac now s
          (some (issue_session_with mac issued a u.username restricted).value)
        ≡ (if ltb now (issued + a.ttl) then some (u.username, restricted) else none)
  unfolding issue_session_with
  verify_session-issue issued now a s u restricted named plain found on small mac_bytes =
      rw
        (
          verify_session-sign now s (session_payload u.username (issued + a.ttl) restricted)
              (payload_bytes u.username (issued + a.ttl) restricted) mac_bytes,
          payload_parts u.username (issued + a.ttl) restricted plain,
          session_of_parts now (issued + a.ttl) s u (mark_parts restricted) named found on small,
        )
        (mark_kept (issued + a.ttl) now u.username restricted)
