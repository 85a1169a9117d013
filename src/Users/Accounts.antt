-- ===== src/Users/Accounts.antt =====
-- internal/users/accounts.go: the methods of Store on accounts. A method takes the store last and
-- returns its result beside the new store. The statements of a transaction are applied only when
-- the method succeeds; Create and InviteUser write outside one, statement by statement.
use my_eink_library.Common.{
  leb, ◌==◌, if◌then◌else◌, is_some, Result, ok, err, find?, exists, update, delete, Text, is_empty,
  ℕ, ◌+◌, Bool, true, false, not, ◌&&◌, ◌||◌, Option, none, some, List, [], ◌∷◌, ◌++◌,
}
use my_eink_library.Users.{
  Role, admin, is_admin, valid_role, bookmark_link, UserRow, Store, UsersError,
  credentials_required, password_required, invalid_role, email_in_use, demote_last_admin,
  delete_last_admin, disable_last_admin, no_rows, unique_violation, hash_failed, Bcrypt, has_id,
  has_username, admin_count, email_is, null_if_empty, manage_users, manage_server,
}
use my_eink_library.Users.Permissions.{
  enabled_named, overrides_for, upsert_override, set_permission_override, can,
}

-- The row of an INSERT INTO users, with the columns that it leaves to their defaults.
abbrev pub new_row : Text → Text → Role → Bool → Option Text → ℕ → UserRow
new_row username hash role can_bookmark email now = record {
  id = 0;
  username = username;
  password_hash = hash;
  is_admin_column = is_admin role;
  role = role;
  can_bookmark = can_bookmark;
  enabled = true;
  email = email;
  digest_subscribed = false;
  bookmark_token_hash = none;
  bookmark_token_created_at = none;
  reset_token_hash = none;
  reset_token_created_at = none;
  invite_token_hash = none;
  invite_token_created_at = none;
  created_at = now;
}

-- The store with the row under its AUTOINCREMENT id.
abbrev pub append_user : UserRow → Store → Store
append_user row s = record s {
  users = s.users ++ record row { id = s.next_id } ∷ [];
  next_id = s.next_id + 1;
}

-- UNIQUE(username)
abbrev pub username_taken : Text → Store → Bool
username_taken username s = exists (has_username username) s.users

abbrev pub set_user : ℕ → (UserRow → UserRow) → Store → Store
set_user id f s = record s { users = update (has_id id) f s.users }

abbrev pub set_named : Text → (UserRow → UserRow) → Store → Store
set_named username f s = record s { users = update (has_username username) f s.users }

-- email = ? AND id != ?
abbrev pub email_of_other : Text → ℕ → UserRow → Bool
email_of_other email exclude_id u = email_is email u.email && not (u.id == exclude_id)

unfoldable pub check_email_available : Text → ℕ → Store → Bool
check_email_available email exclude_id s =
    is_empty email || not (is_some (find? (email_of_other email exclude_id) s.users))

unfoldable pub has_users : Store → Bool
has_users s = exists (λ u. true) s.users

-- The last enabled administrator must keep its role.
abbrev pub is_last_admin : UserRow → Store → Bool
is_last_admin u s = is_admin u.role && (u.enabled && leb (admin_count s) 1)

abbrev pub assign_role : Role → Bool → UserRow → UserRow
assign_role role can_bookmark u = record u {
  role = role;
  is_admin_column = is_admin role;
  can_bookmark = can_bookmark;
}

-- The writes of SetRole, behind its guards.
unfoldable pub write_role : ℕ → Role → Bool → Store → Store
write_role id role can_bookmark s = record s {
  users = update (has_id id) (assign_role role can_bookmark) s.users;
  overrides =
      if can_bookmark
      then delete (overrides_for id bookmark_link) s.overrides
      else upsert_override id bookmark_link false s.overrides;
}

unfoldable pub set_role : ℕ → Role → Bool → Store → Result UsersError (Unit {0}) × Store
set_role id role can_bookmark s =
    if not (valid_role role)
    then (err (invalid_role role), s)
    else if is_admin role
    then (ok tt, write_role id role can_bookmark s)
    else elim (find? (has_id id) s.users) [
      | none ↦ (err no_rows, s)
      | some u ↦
          if is_last_admin u s
          then (err demote_last_admin, s)
          else (ok tt, write_role id role can_bookmark s)
    ]

-- `foreign_keys` says whether the connection enforces ON DELETE CASCADE.
unfoldable pub delete_user : Bool → ℕ → Store → Result UsersError (Unit {0}) × Store
delete_user foreign_keys id s = elim (find? (has_id id) s.users) [
  | none ↦ (err no_rows, s)
  | some u ↦ if is_last_admin u s then (err delete_last_admin, s) else (
    ok tt,
    record s {
      users = delete (has_id id) s.users;
      overrides = if foreign_keys then delete (λ o. o.user_id == id) s.overrides else s.overrides;
    },
  )
]

unfoldable pub set_enabled : ℕ → Bool → Store → Result UsersError (Unit {0}) × Store
set_enabled id enabled s = elim (find? (has_id id) s.users) [
  | none ↦ (err no_rows, s)
  | some u ↦
      if not enabled && is_last_admin u s
      then (err disable_last_admin, s)
      else (ok tt, set_user id (λ v. record v { enabled = enabled }) s)
]

unfoldable pub set_email : ℕ → Text → Store → Result UsersError (Unit {0}) × Store
set_email id email s =
    if not (check_email_available email id s)
    then (err (email_in_use email), s)
    else (ok tt, set_user id (λ v. record v { email = null_if_empty email }) s)

unfoldable pub set_digest_subscribed : Text → Bool → Store → Store
set_digest_subscribed username subscribed s =
    set_named username (λ v. record v { digest_subscribed = subscribed }) s

unfoldable pub is_digest_subscribed : Text → Store → Bool
is_digest_subscribed username s = elim (find? (has_username username) s.users) [
  | none ↦ false
  | some u ↦ u.digest_subscribed
]

-- enabled = 1 AND digest_subscribed = 1 AND email IS NOT NULL AND email != ''
abbrev pub subscriber_email : UserRow → Option Text
subscriber_email u = elim u.email [
  | none ↦ none
  | some e ↦ if u.enabled && (u.digest_subscribed && not (is_empty e)) then some e else none
]

abbrev cons_some : Option Text → List Text → List Text
cons_some none rest = rest
cons_some (some e) rest = e ∷ rest

subscriber_emails : List UserRow → List Text
subscriber_emails [] = []
subscriber_emails (u ∷ us) = cons_some (subscriber_email u) (subscriber_emails us)

unfoldable pub digest_subscribers : Store → List Text
unfolding subscriber_emails
digest_subscribers s = subscriber_emails s.users

unfoldable pub role_of : Text → Store → Option Role
role_of username s = elim (find? (enabled_named username) s.users) [
  | none ↦ none
  | some u ↦ some u.role
]

unfoldable pub is_admin_user : Text → Store → Bool
is_admin_user username s = elim (role_of username s) [ none ↦ false | some role ↦ is_admin role ]

unfoldable pub can_manage_users : Text → Store → Bool
can_manage_users username s = can s username manage_users

unfoldable pub can_manage_server : Text → Store → Bool
can_manage_server username s = can s username manage_server

unfoldable pub can_use_bookmark : Text → Store → Bool
can_use_bookmark username s = can s username bookmark_link

-- The INSERT of Create, and the override that records a refused bookmark link.
unfoldable pub insert_account : UserRow → Bool → Store → Result UsersError (Unit {0}) × Store
insert_account row can_bookmark s =
    if username_taken row.username s
    then (err unique_violation, s)
    else if can_bookmark
    then (ok tt, append_user row s)
    else set_permission_override s.next_id bookmark_link (some false) (append_user row s)

module _ (b : Bcrypt) where
  unfoldable pub hash_password : ℕ → Text → Result UsersError Text
  hash_password salt [] = err password_required
  hash_password salt (c ∷ s) = elim (b.generate salt (c ∷ s)) [
    | none ↦ err hash_failed
    | some hash ↦ ok hash
  ]

  -- The comparison with the dummy hash of an unknown username has no result.
  unfoldable pub check_password : Text → Text → Store → Bool
  check_password username password s = elim (find? (enabled_named username) s.users) [
    | none ↦ false
    | some u ↦ b.compare_hash u.password_hash password
  ]

  unfoldable pub create_first_admin : ℕ → ℕ → Text → Text → Store → Result UsersError Bool × Store
  create_first_admin now salt username password s =
      if is_empty username || is_empty password
      then (err credentials_required, s)
      else elim (hash_password salt password) [
        | err e ↦ (err e, s)
        | ok hash ↦
            if has_users s
            then (ok false, s)
            else (ok true, append_user (new_row username hash admin true none now) s)
      ]

  unfoldable pub bootstrap : ℕ → ℕ → Text → Text → Store → Result UsersError (Unit {0}) × Store
  bootstrap now salt username password s =
      elim (create_first_admin now salt username password s).0 [
        | err e ↦ (err e, (create_first_admin now salt username password s).1)
        | ok created ↦ (ok tt, (create_first_admin now salt username password s).1)
      ]

  unfoldable pub create :
      ℕ → ℕ → Text → Text → Role → Bool → Text → Store → Result UsersError (Unit {0}) × Store
  create now salt username password role can_bookmark email s =
      if is_empty username || is_empty password
      then (err credentials_required, s)
      else if not (valid_role role)
      then (err (invalid_role role), s)
      else if not (check_email_available email 0 s)
      then (err (email_in_use email), s)
      else elim (hash_password salt password) [
        | err e ↦ (err e, s)
        | ok hash ↦
            insert_account (new_row username hash role can_bookmark (null_if_empty email) now)
              can_bookmark s
      ]

  unfoldable pub reset_password : ℕ → ℕ → Text → Store → Result UsersError (Unit {0}) × Store
  reset_password salt id new_password s = elim (hash_password salt new_password) [
    | err e ↦ (err e, s)
    | ok hash ↦ (ok tt, set_user id (λ v. record v { password_hash = hash }) s)
  ]
