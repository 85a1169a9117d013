-- ===== src/Users/TokenOutcome.antt =====
-- The methods of tokens.go end in the outcomes of Outcome.antt.
use my_eink_library.Common.{
  Bool-cases, Option-cases, Result-cases, find?, count, update, Text, is_empty, ℕ, ◌≡◌, refl, inl,
  inr, Bool, true, false, ◌&&◌, ◌||◌, Option, none, some, List, [], ◌∷◌, arith,
}
use my_eink_library.Users.{
  Role, valid_role, UserRow, Store, Bcrypt, has_id, has_username, email_is, bookmark_link,
  Permission,
}
use my_eink_library.Users.Permissions.{set_permission_overrides, can, first_invalid}
use my_eink_library.Users.Accounts.{
  check_email_available, hash_password, insert_account, set_digest_subscribed,
}
use my_eink_library.Users.Tokens.{
  TimedToken, reset_token, invite_token, set_token_columns, revoke_bookmark_token, new_token,
  generate_bookmark_token, verify_timed_token, issue_timed_token, consume_timed_token,
  request_password_reset, resend_invite, invited_row, invite_user, invite_checked, is_non_empty,
}
use my_eink_library.Users.Invariant.{IsValid, KeepsKeys, has_email}
use my_eink_library.Users.Outcome.{
  KeepsRank, Outcome, unchanged, updated, stays, insert_account-Outcome, email_free_of,
}

token-KeepsKeys :
    (spec : TimedToken) (hash : Option Text) (at : Option ℕ)
    → KeepsKeys (set_token_columns spec hash at)
token-KeepsKeys reset_token hash at = record {
  id = λ u. refl;
  username = λ u. refl;
  email = λ u. refl;
  role = λ u. refl;
}
token-KeepsKeys invite_token hash at = record {
  id = λ u. refl;
  username = λ u. refl;
  email = λ u. refl;
  role = λ u. refl;
}

token-KeepsRank :
    (spec : TimedToken) (hash : Option Text) (at : Option ℕ)
    → KeepsRank (set_token_columns spec hash at)
token-KeepsRank reset_token hash at = record { role = λ u. refl; enabled = λ u. refl }
token-KeepsRank invite_token hash at = record { role = λ u. refl; enabled = λ u. refl }

-- The update of consumeTimedToken.
abbrev pub spend : TimedToken → Text → UserRow → UserRow
spend spec hash u = set_token_columns spec none none (record u { password_hash = hash })

spend-Outcome :
    (spec : TimedToken) (p : UserRow → Bool) (hash : Text) (s : Store)
    → Outcome s (record s { users = update p (spend spec hash) s.users })
spend-Outcome reset_token p hash s =
    updated p (spend reset_token hash)
      (record { id = λ u. refl; username = λ u. refl; email = λ u. refl; role = λ u. refl })
      (record { role = λ u. refl; enabled = λ u. refl })
spend-Outcome invite_token p hash s =
    updated p (spend invite_token hash)
      (record { id = λ u. refl; username = λ u. refl; email = λ u. refl; role = λ u. refl })
      (record { role = λ u. refl; enabled = λ u. refl })

pub set_permission_overrides-Outcome :
    (id : ℕ) (overrides : List (Permission × Option Bool)) (s : Store)
    → Outcome s (set_permission_overrides id overrides s).1
unfolding set_permission_overrides
set_permission_overrides-Outcome id overrides s = elim (Option-cases (first_invalid overrides)) [
  | inl fine ↦ rw (fine, set_permission_overrides) (unchanged _)
  | inr (p, bad) ↦ rw (bad, set_permission_overrides) (stays s)
]

pub set_digest_subscribed-Outcome :
    (username : Text) (subscribed : Bool) (s : Store)
    → Outcome s (set_digest_subscribed username subscribed s)
unfolding set_digest_subscribed
set_digest_subscribed-Outcome username subscribed s =
    updated (has_username username) (λ u. record u { digest_subscribed = subscribed })
      (record { id = λ u. refl; username = λ u. refl; email = λ u. refl; role = λ u. refl })
      (record { role = λ u. refl; enabled = λ u. refl })

pub revoke_bookmark_token-Outcome :
    (username : Text) (s : Store) → Outcome s (revoke_bookmark_token username s)
unfolding revoke_bookmark_token
revoke_bookmark_token-Outcome username s =
    updated (has_username username)
      (λ u. record u { bookmark_token_hash = none; bookmark_token_created_at = none })
      (record { id = λ u. refl; username = λ u. refl; email = λ u. refl; role = λ u. refl })
      (record { role = λ u. refl; enabled = λ u. refl })

email_free_of_given :
    (email : Text) (s : Store)
    → is_empty email ≡ false
    → check_email_available email 0 s ≡ true
    → IsValid s
    → (e : Text) → some email ≡ some e
    → count (has_email e) s.users ≡ 0
email_free_of_given [] s given free v e h = cc
email_free_of_given (c ∷ m) s given free v e h = email_free_of (c ∷ m) s free v e h

module _ (b : Bcrypt) where
  pub generate_bookmark_token-Outcome :
      (now salt : ℕ) (drawn : Option Text) (username : Text) (s : Store)
      → Outcome s (generate_bookmark_token b now salt drawn username s).1
  unfolding generate_bookmark_token
  generate_bookmark_token-Outcome now salt drawn username s =
      elim (Bool-cases (can s username bookmark_link)) [
        | inr refused ↦ rw refused (stays s)
        | inl granted ↦ rw granted (elim (Result-cases (new_token b salt drawn)) [
          | inl (e, failed) ↦ rw failed (stays s)
          | inr ((token, hash), made) ↦ rw made (
              updated (has_username username)
                (λ u. record u {
                  bookmark_token_hash = some hash;
                  bookmark_token_created_at = some now;
                })
                (record {
                  id = λ u. refl;
                  username = λ u. refl;
                  email = λ u. refl;
                  role = λ u. refl;
                })
                (record { role = λ u. refl; enabled = λ u. refl }))
        ])
      ]

  pub issue_timed_token-Outcome :
      (spec : TimedToken) (now salt : ℕ) (drawn : Option Text) (which : UserRow → Bool) (s : Store)
      → Outcome s (issue_timed_token b spec now salt drawn which s).1
  unfolding issue_timed_token
  issue_timed_token-Outcome spec now salt drawn which s =
      elim (Result-cases (new_token b salt drawn)) [
        | inl (e, failed) ↦ rw (failed, issue_timed_token) (stays s)
        | inr ((token, hash), made) ↦
            rw (made, issue_timed_token)
              (updated which (set_token_columns spec (some hash) (some now))
                (token-KeepsKeys spec (some hash) (some now))
                (token-KeepsRank spec (some hash) (some now)))
      ]

  pub consume_timed_token-Outcome :
      (spec : TimedToken) (now salt : ℕ) (token password : Text) (s : Store)
      → Outcome s (consume_timed_token b spec now salt token password s).1
  unfolding consume_timed_token
  consume_timed_token-Outcome spec now salt token password s =
      elim (Option-cases (verify_timed_token b spec now token s)) [
        | inl refused ↦ rw (refused, consume_timed_token) (stays s)
        | inr (username, good) ↦
            rw (good, consume_timed_token)
              (elim (Result-cases (hash_password b salt password)) [
                | inl (e, failed) ↦ rw failed (stays s)
                | inr (hash, hashed) ↦ rw hashed (spend-Outcome spec (has_username username) hash s)
              ])
      ]

  pub request_password_reset-Outcome :
      (now salt : ℕ) (drawn : Option Text) (email : Text) (s : Store)
      → Outcome s (request_password_reset b now salt drawn email s).1
  unfolding request_password_reset
  request_password_reset-Outcome now salt drawn email s = elim (Bool-cases (is_empty email)) [
    | inl blank ↦ rw blank (stays s)
    | inr given ↦
        rw given (elim (Option-cases (find? (λ u. email_is email u.email && u.enabled) s.users)) [
          | inl absent ↦ rw absent (stays s)
          | inr (u, found) ↦
              rw found
                (elim (Result-cases
                  (issue_timed_token b reset_token now salt drawn (has_username u.username) s).0) [
                    | inl (e, failed) ↦ rw failed (stays s)
                    | inr (token, made) ↦ rw made (
                        issue_timed_token-Outcome reset_token now salt drawn
                          (has_username u.username) s)
                  ])
        ])
  ]

  pub resend_invite-Outcome :
      (now salt : ℕ) (drawn : Option Text) (id : ℕ) (s : Store)
      → Outcome s (resend_invite b now salt drawn id s).1
  unfolding resend_invite
  resend_invite-Outcome now salt drawn id s =
      elim (Option-cases (find? (λ u. has_id id u && u.enabled) s.users)) [
        | inl absent ↦ rw (absent, resend_invite) (stays s)
        | inr (u, found) ↦
            rw (found, resend_invite)
              (elim (Bool-cases (is_non_empty u.invite_token_hash)) [
                | inr spent ↦ rw spent (stays s)
                | inl pending ↦
                    rw pending (issue_timed_token-Outcome invite_token now salt drawn (has_id id) s)
              ])
      ]

  pub invite_user-Outcome :
      (now salt : ℕ) (placeholder drawn : Option Text) (username email : Text) (role : Role)
      (can_bookmark : Bool) (s : Store)
      → IsValid s
      → Outcome s (invite_user b now salt placeholder drawn username email role can_bookmark s).1
  unfolding invite_user invite_checked
  invite_user-Outcome now salt placeholder drawn username email role can_bookmark s v =
      elim (Bool-cases (is_empty username || is_empty email)) [
        | inl blank ↦ rw blank (stays s)
        | inr given ↦ rw given (elim (Bool-cases (valid_role role)) [
          | inr bad ↦ rw bad (stays s)
          | inl good ↦ rw good (elim (Bool-cases (check_email_available email 0 s)) [
            | inr taken ↦ rw taken (stays s)
            | inl free ↦ rw free (invite_made given good free)
          ])
        ])
      ]
    where
      invite_made :
          (is_empty username || is_empty email) ≡ false
          → valid_role role ≡ true
          → check_email_available email 0 s ≡ true
          → Outcome s
              (invite_checked b now salt placeholder drawn username email role can_bookmark s).1
      invite_made given good free = elim (Result-cases (new_token b salt placeholder)) [
        | inl (e, failed) ↦ rw (failed, invite_checked) (stays s)
        | inr ((random_password, password_hash), p_made) ↦
            rw (p_made, invite_checked)
              (elim (Result-cases (new_token b salt drawn)) [
                | inl (e, failed) ↦ rw failed (stays s)
                | inr ((token, hash), made) ↦
                    rw made
                      (elim (Result-cases
                        (insert_account
                          (invited_row now username password_hash role can_bookmark email hash)
                          can_bookmark s).0) [
                            | inl (e, failed) ↦ rw failed (stays s)
                            | inr (done, joined) ↦ rw joined (
                                insert_account-Outcome
                                  (invited_row now username password_hash role can_bookmark email
                                    hash)
                                  can_bookmark s (email_free_of_given email s (ground arith) free v)
                                  good)
                          ])
              ])
      ]
