-- ===== src/Users.antt =====
-- The data of internal/users: the rows of the tables `users` and `user_permission_overrides` with
-- the columns of migrations/*.sql and migrations.go, roles, permissions, and the errors that the
-- methods return. A text column that may be NULL is an `Option`; a 0/1 column is a `Bool`.
pub mod Permissions
pub mod Accounts
pub mod Tokens
pub mod Invariant
pub mod Operations
pub mod Outcome
pub mod TokenOutcome
pub mod Safety
pub mod Access
pub mod Lockout
pub mod TokenLife
pub mod TokenUse
pub mod Login
pub mod Listing
pub mod Settings
pub mod Examples
use my_eink_library.Common.{
  ltb, leb, ◌==◌, if◌then◌else◌, ltb→lt, lt→ltb, leb→le, ==_iff, ==_refl, Bool-cases, Option-cases,
  indicator, is_some, Result-cases, and_left, and_right, Result, ok, err, exists_either,
  exists_of_found, exists-delete_none, exists-update_safe, exists-delete_apart, exists_one,
  exists_counted, exists-update_apart, counted_one, exists_all, count_cong, find?, count, exists,
  select, update, delete, count-append, exists-append, exists-delete, find?_holds, find?-append,
  find?-append_none, find?-exists, exists-find?, update_absent, delete_absent, count-update_keeps,
  count-delete-le, length, take, length-append, length-take-le, All, All-append, All-map, insert_by,
  sort_by, count-sort_by, count-select, find?_absent, count_of_none, count_of_some,
  count_of_not_exists, count_implied, count-update_none, count-delete_none, count-update_one,
  count-delete_one, count_split, count-find?, find?_unique, count-and_one, count-update_lowers,
  count-update_raises, exists_implied, find?-update_found, exists_count, count_exists,
  length-delete, exists-delete_other, exists-update_keeps, exists_cong, exists_thinned,
  exists-delete_kept, exists_none, Text, codes, text_eq, text_eq_refl, text_eq_iff, is_empty,
  is_space, trim_left, trim_space, rune_len, byte_len, ascii_lower, lower_ascii, to_lower, ℕ, zero,
  suc, ◌+◌, ◌-◌, ◌*◌, ◌/◌, ◌%◌, ◌^◌, ◌≤◌, ◌<◌, ◌≡◌, refl, sym, ap, ◌∙◌, ◌≢◌, ◌↔◌, ◌⊎◌, inl, inr,
  Bool, true, false, not, ◌&&◌, ◌||◌, Option, none, some, reverse, List, [], ◌∷◌, ◌++◌, map,
  append-nil, append_assoc, arith,
}

-- The four role strings, and any other string.
pub data Role : Type 0 where
  admin user_manager server_manager member : Role
  other_role : Text → Role

abbrev pub is_admin : Role → Bool
is_admin admin = true
is_admin _ = false

abbrev pub is_user_manager : Role → Bool
is_user_manager user_manager = true
is_user_manager _ = false

abbrev pub is_server_manager : Role → Bool
is_server_manager server_manager = true
is_server_manager _ = false

abbrev pub valid_role : Role → Bool
valid_role admin = true
valid_role user_manager = true
valid_role server_manager = true
valid_role member = true
valid_role (other_role s) = false

-- The six permission strings, and any other string.
pub data Permission : Type 0 where
  manage_users manage_server own_shelves manage_shelves create_public_shelves : Permission
  bookmark_link : Permission
  other_permission : Text → Permission

pub record UserRow : Type 0 where
  pub id : ℕ
  pub username : Text
  pub password_hash : Text
  pub is_admin_column : Bool
  pub role : Role
  pub can_bookmark : Bool
  pub enabled : Bool
  pub email : Option Text
  pub digest_subscribed : Bool
  pub bookmark_token_hash : Option Text
  pub bookmark_token_created_at : Option ℕ
  pub reset_token_hash : Option Text
  pub reset_token_created_at : Option ℕ
  pub invite_token_hash : Option Text
  pub invite_token_created_at : Option ℕ
  pub created_at : ℕ

pub record Override : Type 0 where
  pub user_id : ℕ
  pub permission : Permission
  pub granted : Bool

-- `next_id` is what AUTOINCREMENT gives next.
pub record Store : Type 0 where
  pub users : List UserRow
  pub overrides : List Override
  pub next_id : ℕ

pub data UsersError : Type 0 where
  credentials_required username_and_email_required password_required : UsersError
  invalid_role : Role → UsersError
  invalid_permission : Permission → UsersError
  email_in_use : Text → UsersError
  demote_last_admin delete_last_admin disable_last_admin : UsersError
  no_rows unique_violation random_failed hash_failed : UsersError
  bookmark_not_permitted invalid_reset_link invalid_invite_link no_pending_invite : UsersError

-- bcrypt (golang.org/x/crypto): `generate` takes the salt that the package draws, and fails on what
-- bcrypt refuses; a password fits the hash that was made from it.
pub record Bcrypt : Type 0 where
  pub generate : ℕ → Text → Option Text
  pub compare_hash : Text → Text → Bool
  pub compare-generate :
      (salt : ℕ) (password hash : Text)
      → generate salt password ≡ some hash
      → compare_hash hash password ≡ true

-- WHERE id = ?
abbrev pub has_id : ℕ → UserRow → Bool
has_id id u = u.id == id

-- WHERE username = ?
abbrev pub has_username : Text → UserRow → Bool
has_username username u = text_eq u.username username

-- WHERE role = 'admin' AND enabled = 1
abbrev pub enabled_admin : UserRow → Bool
enabled_admin u = is_admin u.role && u.enabled

unfoldable pub admin_count : Store → ℕ
admin_count s = count enabled_admin s.users

-- email = ?, which NULL never satisfies
abbrev pub email_is : Text → Option Text → Bool
email_is e none = false
email_is e (some f) = text_eq f e

-- nullIfEmpty
abbrev pub null_if_empty : Text → Option Text
null_if_empty [] = none
null_if_empty (c ∷ s) = some (c ∷ s)
