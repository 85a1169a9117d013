-- ===== src/Users/Tokens.antt =====
-- internal/users/tokens.go: bookmark tokens, and the timed tokens of password resets and invites.
-- `drawn` is what crypto/rand and base64 make of 32 random bytes, none if reading them fails.
use my_eink_library.Common.{
  ltb, if◌then◌else◌, Result, ok, err, find?, update, Text, is_empty, ℕ, ◌-◌, ◌*◌, Bool, true,
  false, not, ◌&&◌, ◌||◌, Option, none, some,
}
use my_eink_library.Users.{
  Role, valid_role, bookmark_link, UserRow, Override, Store, UsersError,
  username_and_email_required, invalid_role, email_in_use, no_rows, random_failed, hash_failed,
  bookmark_not_permitted, invalid_reset_link, invalid_invite_link, no_pending_invite, Bcrypt,
  has_id, has_username, email_is,
}
use my_eink_library.Users.Permissions.{overrides_for, can}
use my_eink_library.Users.Accounts.{
  new_row, set_named, check_email_available, hash_password, insert_account,
}

-- resetTokenSpec and inviteTokenSpec
pub data TimedToken : Type 0 where
  reset_token invite_token : TimedToken

abbrev pub ttl : TimedToken → ℕ
ttl reset_token = 3600
ttl invite_token = 7 * 24 * 3600

abbrev pub invalid_message : TimedToken → UsersError
invalid_message reset_token = invalid_reset_link
invalid_message invite_token = invalid_invite_link

abbrev pub hash_column : TimedToken → UserRow → Option Text
hash_column reset_token u = u.reset_token_hash
hash_column invite_token u = u.invite_token_hash

abbrev pub created_at_column : TimedToken → UserRow → Option ℕ
created_at_column reset_token u = u.reset_token_created_at
created_at_column invite_token u = u.invite_token_created_at

abbrev pub set_token_columns : TimedToken → Option Text → Option ℕ → UserRow → UserRow
set_token_columns reset_token hash at u = record u {
  reset_token_hash = hash;
  reset_token_created_at = at;
}
set_token_columns invite_token hash at u = record u {
  invite_token_hash = hash;
  invite_token_created_at = at;
}

-- p.granted IS NULL OR p.granted = 1
abbrev pub not_revoked : Option Override → Bool
not_revoked none = true
not_revoked (some o) = o.granted

-- The scan fails on a NULL creation time, and the loop goes on.
abbrev pub is_fresh : ℕ → Option ℕ → Bool
is_fresh cutoff none = false
is_fresh cutoff (some created_at) = not (ltb created_at cutoff)

-- The Option is none where the column is NULL.
abbrev pub is_non_empty : Option Text → Bool
is_non_empty none = false
is_non_empty (some h) = not (is_empty h)

unfoldable pub revoke_bookmark_token : Text → Store → Store
revoke_bookmark_token username s =
    set_named username
      (λ u. record u { bookmark_token_hash = none; bookmark_token_created_at = none }) s

unfoldable pub has_bookmark_token : Text → Store → Bool
has_bookmark_token username s = elim (find? (has_username username) s.users) [
  | none ↦ false
  | some u ↦ is_non_empty u.bookmark_token_hash
]

-- The row of the INSERT of InviteUser.
abbrev pub invited_row : ℕ → Text → Text → Role → Bool → Text → Text → UserRow
invited_row now username placeholder role can_bookmark email hash =
    record (new_row username placeholder role can_bookmark (some email) now) {
      invite_token_hash = some hash;
      invite_token_created_at = some now;
    }

module _ (b : Bcrypt) where
  unfoldable pub new_token : ℕ → Option Text → Result UsersError (Text × Text)
  new_token salt none = err random_failed
  new_token salt (some raw) = elim (b.generate salt raw) [
    | none ↦ err hash_failed
    | some hash ↦ ok (raw, hash)
  ]

  unfoldable pub generate_bookmark_token :
      ℕ → ℕ → Option Text → Text → Store → Result UsersError Text × Store
  generate_bookmark_token now salt drawn username s =
      if not (can s username bookmark_link)
      then (err bookmark_not_permitted, s)
      else elim (new_token salt drawn) [
        | err e ↦ (err e, s)
        | ok (token, hash) ↦ (
          ok token,
          set_named username
              (λ u. record u {
                bookmark_token_hash = some hash;
                bookmark_token_created_at = some now;
              })
              s,
        )
      ]

  abbrev pub hash_fits : Option Text → Text → Bool
  hash_fits none token = false
  hash_fits (some hash) token = b.compare_hash hash token

  -- A row of the query whose hash the token fits.
  abbrev pub bookmark_fits : Store → Text → UserRow → Bool
  bookmark_fits s token u =
      u.enabled
      && (not_revoked (find? (overrides_for u.id bookmark_link) s.overrides)
          && hash_fits u.bookmark_token_hash token)

  unfoldable pub verify_bookmark_token : Text → Store → Option Text
  verify_bookmark_token token s =
      if is_empty token
      then none
      else elim (find? (bookmark_fits s token) s.users) [ none ↦ none | some u ↦ some u.username ]

  abbrev pub timed_fits : TimedToken → ℕ → Text → UserRow → Bool
  timed_fits spec now token u =
      u.enabled
      && (is_fresh (now - ttl spec) (created_at_column spec u)
          && hash_fits (hash_column spec u) token)

  unfoldable pub verify_timed_token : TimedToken → ℕ → Text → Store → Option Text
  verify_timed_token spec now token s =
      if is_empty token then none else elim (find? (timed_fits spec now token) s.users) [
        | none ↦ none
        | some u ↦ some u.username
      ]

  unfoldable pub verify_reset_token : ℕ → Text → Store → Option Text
  unfolding verify_timed_token
  verify_reset_token = verify_timed_token reset_token

  unfoldable pub verify_invite_token : ℕ → Text → Store → Option Text
  unfolding verify_timed_token
  verify_invite_token = verify_timed_token invite_token

  -- `which` is the WHERE clause.
  unfoldable pub issue_timed_token :
      TimedToken → ℕ → ℕ → Option Text → (UserRow → Bool) → Store → Result UsersError Text × Store
  issue_timed_token spec now salt drawn which s = elim (new_token salt drawn) [
    | err e ↦ (err e, s)
    | ok (token, hash) ↦ (
      ok token,
      record s { users = update which (set_token_columns spec (some hash) (some now)) s.users },
    )
  ]

  unfoldable pub consume_timed_token :
      TimedToken → ℕ → ℕ → Text → Text → Store → Result UsersError (Unit {0}) × Store
  consume_timed_token spec now salt token password s = elim (verify_timed_token spec now token s) [
    | none ↦ (err (invalid_message spec), s)
    | some username ↦ elim (hash_password b salt password) [
      | err e ↦ (err e, s)
      | ok hash ↦ (
        ok tt,
        set_named username
            (λ u. set_token_columns spec none none (record u { password_hash = hash })) s,
      )
    ]
  ]

  -- The result is none for an address that no enabled account has.
  unfoldable pub request_password_reset :
      ℕ → ℕ → Option Text → Text → Store → Result UsersError (Option (Text × Text)) × Store
  request_password_reset now salt drawn email s =
      if is_empty email
      then (ok none, s)
      else elim (find? (λ u. email_is email u.email && u.enabled) s.users) [
        | none ↦ (ok none, s)
        | some u ↦
            elim (issue_timed_token reset_token now salt drawn (has_username u.username) s).0 [
              | err e ↦ (err e, s)
              | ok token ↦ (
                ok (some (token, u.username)),
                (issue_timed_token reset_token now salt drawn (has_username u.username) s).1,
              )
            ]
      ]

  unfoldable pub complete_password_reset :
      ℕ → ℕ → Text → Text → Store → Result UsersError (Unit {0}) × Store
  unfolding consume_timed_token
  complete_password_reset = consume_timed_token reset_token

  unfoldable pub accept_invite : ℕ → ℕ → Text → Text → Store → Result UsersError (Unit {0}) × Store
  unfolding consume_timed_token
  accept_invite = consume_timed_token invite_token

  unfoldable pub resend_invite : ℕ → ℕ → Option Text → ℕ → Store → Result UsersError Text × Store
  resend_invite now salt drawn id s = elim (find? (λ u. has_id id u && u.enabled) s.users) [
    | none ↦ (err no_rows, s)
    | some u ↦
        if not (is_non_empty u.invite_token_hash)
        then (err no_pending_invite, s)
        else issue_timed_token invite_token now salt drawn (has_id id) s
  ]

  -- InviteUser behind its guards. `placeholder` is the random password that the account has until
  -- the invite is accepted.
  unfoldable pub invite_checked :
      ℕ
      → ℕ
      → Option Text
      → Option Text
      → Text
      → Text
      → Role
      → Bool
      → Store
      → Result UsersError Text × Store
  invite_checked now salt placeholder drawn username email role can_bookmark s =
      elim (new_token salt placeholder) [
        | err e ↦ (err e, s)
        | ok (random_password, password_hash) ↦ elim (new_token salt drawn) [
          | err e ↦ (err e, s)
          | ok (token, hash) ↦
              elim (insert_account
                (invited_row now username password_hash role can_bookmark email hash) can_bookmark
                s).0 [
                  | err e ↦ (err e, s)
                  | ok _ ↦ (
                    ok token,
                    (insert_account
                        (invited_row now username password_hash role can_bookmark email hash)
                        can_bookmark s).1,
                  )
                ]
        ]
      ]

  unfoldable pub invite_user :
      ℕ
      → ℕ
      → Option Text
      → Option Text
      → Text
      → Text
      → Role
      → Bool
      → Store
      → Result UsersError Text × Store
  unfolding invite_checked
  invite_user now salt placeholder drawn username email role can_bookmark s =
      if is_empty username || is_empty email
      then (err username_and_email_required, s)
      else if not (valid_role role)
      then (err (invalid_role role), s)
      else if not (check_email_available email 0 s)
      then (err (email_in_use email), s)
      else invite_checked now salt placeholder drawn username email role can_bookmark s
