-- ===== src/Auth/Confusion.antt =====
-- Usernames are not checked for the bar that separates the fields of a session's payload.
use my_eink_library.Common.{
  ltb, if◌then◌else◌, find?, All, Text, text_eq, is_empty, ℕ, ◌+◌, ◌≤◌, ◌<◌, ◌≡◌, refl, ap, ◌∙◌,
  Bool, true, false, none, some, [], ◌∷◌, ◌++◌, append-nil, append_assoc, arith,
}
use my_eink_library.Encoding.Base64.{IsByte}
use my_eink_library.Encoding.Decimal.{format_int, max_int64, is_digit, format_int_plain}
use my_eink_library.Encoding.Split.{split_n, cut_at, Lacks}
use my_eink_library.Users.{UserRow, Store}
use my_eink_library.Auth.Session.{
  Authenticator, bar, restricted_mark, session_payload, issue_session_with, verify_session,
  name_has_bytes,
}
use my_eink_library.Auth.RoundTrip.{
  payload_bytes, session_of_parts, verify_session-sign, digits_lack_bar,
}
use my_eink_library.Encoding.Utf8.{utf8, Bytes, utf8-append, utf8-Lacks, utf8_ascii}

-- What stands behind the second bar of a payload.
abbrev after_expiry : Bool → Text
after_expiry true = bar ∷ restricted_mark
after_expiry false = []

not_mark :
    (d : Text) (restricted : Bool)
    → All (λ c. is_digit c ≡ true) d
    → text_eq (d ++ after_expiry restricted) restricted_mark ≡ false
unfolding text_eq
not_mark [] true _ = refl
not_mark [] false _ = refl
not_mark (c ∷ d) restricted (h, _) = ground arith

-- The name of another user, a bar and a time.
abbrev pub posing_as : Text → ℕ → Text
posing_as name e = name ++ bar ∷ format_int e

digits_ascii : (d : Text) → All (λ c. is_digit c ≡ true) d → All (λ c. c < 128) d
digits_ascii [] _ = tt
digits_ascii (c ∷ d) (h, hs) = (ground (arith, h), digits_ascii d hs)

posing_utf8 : (name : Text) (e : ℕ) → utf8 (posing_as name e) ≡ utf8 name ++ bar ∷ format_int e
posing_utf8 name e =
    utf8-append name (bar ∷ format_int e)
    ∙ ap (λ x. utf8 name ++ x)
        (utf8_ascii (bar ∷ format_int e) (omega arith, digits_ascii _ (format_int_plain e)))

posing_parts :
    (name : Text) (e expires : ℕ) (restricted : Bool)
    → Lacks bar name
    → split_n bar 3 (session_payload (posing_as name e) expires restricted)
      ≡ utf8 name ∷ format_int e ∷ (format_int expires ++ after_expiry restricted) ∷ []
unfolding session_payload split_n
posing_parts name e expires true h =
    rw (posing_utf8 name e, append_assoc)
      (ground (
        arith,
        cut_at bar (utf8 name) (format_int e ++ bar ∷ (format_int expires ++ bar ∷ restricted_mark))
            (utf8-Lacks bar name (omega arith) h),
        cut_at bar (format_int e) (format_int expires ++ bar ∷ restricted_mark)
            (digits_lack_bar _ (format_int_plain e)),
      ))
posing_parts name e expires false h =
    rw (posing_utf8 name e, append_assoc)
      (ground (
        arith,
        cut_at bar (utf8 name) (format_int e ++ bar ∷ format_int expires)
            (utf8-Lacks bar name (omega arith) h),
        append-nil (format_int expires),
        cut_at bar (format_int e) (format_int expires) (digits_lack_bar _ (format_int_plain e)),
      ))

-- Where MACs are bytes, the cookie issued to an account whose name is a name, a bar and a time e of an
-- int64, even a restricted cookie, is read as an unrestricted session of the enabled user of that name
-- until e, if that name is not empty and holds no bar itself.
pub verify_session-posing :
    (mac : Bytes → Bytes) (issued now e : ℕ) (a : Authenticator) (s : Store) (u : UserRow)
    (restricted : Bool)
    → is_empty u.username ≡ false
    → Lacks bar u.username
    → find? (name_has_bytes (utf8 u.username)) s.users ≡ some u
    → u.enabled ≡ true
    → e ≤ max_int64
    → All IsByte (mac (session_payload (posing_as u.username e) (issued + a.ttl) restricted))
    → verify_session mac now s
        (some (issue_session_with mac issued a (posing_as u.username e) restricted).value)
      ≡ (if ltb now e then some (u.username, false) else none)
unfolding issue_session_with
verify_session-posing mac issued now e a s u restricted named plain found on small mac_bytes =
    rw
      (
        verify_session-sign mac now s
            (session_payload (posing_as u.username e) (issued + a.ttl) restricted)
            (payload_bytes (posing_as u.username e) (issued + a.ttl) restricted) mac_bytes,
        posing_parts u.username e (issued + a.ttl) restricted plain,
        session_of_parts now e s u ((format_int (issued + a.ttl) ++ after_expiry restricted) ∷ [])
            named found on small,
        not_mark (format_int (issued + a.ttl)) restricted (format_int_plain (issued + a.ttl)),
      )
      (ground arith)
