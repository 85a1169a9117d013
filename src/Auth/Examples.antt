-- ===== src/Auth/Examples.antt =====
-- The theorems on sessions at concrete cookies.
use my_eink_library.Common.{
  find?, Text, codes, text_eq, ◌≡◌, refl, ◌↔◌, true, false, none, some, [], ◌∷◌, arith,
}
use my_eink_library.Auth.Middleware.{
  require_permission, Request, by_token, served, require_auth, require_full, login_redirect,
}
use my_eink_library.Auth.Session.{
  verify, verify_session, Authenticator, sign, verify_parts, issue_session_with, session_payload,
}
use my_eink_library.Users.Examples.{plain, small, bob, alice}
use my_eink_library.Users.Tokens.{verify_bookmark_token}
use my_eink_library.Encoding.Base64.{encode, decode}
use my_eink_library.Auth.Signature.{verify_sound}
use my_eink_library.Users.{manage_users}
use my_eink_library.Encoding.Split.{split_n, cut}
use my_eink_library.Auth.RoundTrip.{verify_session-issue}
use my_eink_library.Auth.Confusion.{posing_as, verify_session-posing}
use my_eink_library.Users.Permissions.{permission_eq, can}
use my_eink_library.Auth.Guards.{require_auth-by_token, require_permission_iff, sent_back}
use my_eink_library.Encoding.Utf8.{utf8, rune_bytes}

-- A keyed hash of two bytes.
abbrev pub tag : Text → Text
tag [] = 1 ∷ 2 ∷ []
tag (c ∷ s) = 3 ∷ 4 ∷ []

abbrev hour : Authenticator
hour = record { ttl = 3600 }

verify_sound_example :
    (p : Text) × (q : Text) × (split_n b'.' 2 (sign tag (codes "hi")) ≡ p ∷ q ∷ [])
    × (decode p ≡ some (codes "hi"))
    × (decode q ≡ some (tag (codes "hi")))
unfolding verify sign verify_parts encode decode split_n cut text_eq
verify_sound_example = verify_sound tag (sign tag (codes "hi")) (codes "hi") refl

verify_session-issue_example :
    verify_session tag 2000 small (some (issue_session_with tag 1000 hour (codes "bob") true).value)
    ≡ some (codes "bob", true)
unfolding find? text_eq utf8 rune_bytes
verify_session-issue_example =
    verify_session-issue tag 1000 2000 hour small bob true refl
      (omega arith, (omega arith, (omega arith, tt))) refl refl (omega arith)
      (unfold session_payload utf8 rune_bytes in (omega arith, (omega arith, tt)))

verify_session-posing_example :
    verify_session tag 9000 small
      (some (issue_session_with tag 1000 hour (posing_as (codes "alice") 99999) true).value)
    ≡ some (codes "alice", false)
unfolding find? text_eq utf8 rune_bytes
verify_session-posing_example =
    verify_session-posing tag 1000 9000 99999 hour small alice true refl
      (omega arith, (omega arith, (omega arith, (omega arith, (omega arith, tt))))) refl refl
      (omega arith) (unfold session_payload utf8 rune_bytes in (omega arith, (omega arith, tt)))

abbrev bookmarked : Request
bookmarked = record { cookie = none; token = codes "mark"; next_path = codes "%2F" }

require_permission_iff_example :
    ((require_permission plain tag 0 hour small bookmarked manage_users served).0
      ≡ served (record { username = codes "bob"; restricted = false }))
    ↔ ((verify_session tag 0 small none ≡ some (codes "bob", false))
        × (false ≡ false)
        × (can small (codes "bob") manage_users ≡ true))
require_permission_iff_example =
    require_permission_iff plain tag 0 hour small bookmarked manage_users
      (record { username = codes "bob"; restricted = false })

abbrev sent_again : Request
sent_again = record {
  cookie = sent_back (require_auth plain tag 0 hour small bookmarked served).1;
  token = [];
  next_path = codes "%2F";
}

require_auth-by_token_example :
    ((require_auth plain tag 0 hour small bookmarked served).0
      ≡ served (record { username = codes "bob"; restricted = true }))
    × ((require_full plain tag 0 hour small bookmarked served).0 ≡ login_redirect bookmarked)
    × (require_auth plain tag 60 hour small sent_again served
        ≡ (served (record { username = codes "bob"; restricted = true }), none))
    × (require_full plain tag 60 hour small sent_again served ≡ (login_redirect sent_again, none))
unfolding verify_session by_token verify_bookmark_token find? text_eq permission_eq utf8 rune_bytes
require_auth-by_token_example =
    require_auth-by_token plain tag hour 0 60 small bob bookmarked (codes "%2F") served refl refl
      refl (omega arith, (omega arith, (omega arith, tt))) refl refl (omega arith)
      (unfold session_payload utf8 rune_bytes in (omega arith, (omega arith, tt))) (omega arith)
