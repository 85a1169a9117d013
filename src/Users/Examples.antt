-- ===== src/Users/Examples.antt =====
-- A small users database, and runs of the theorems on it.
use my_eink_library.Common.{
  ok, find?, count, exists, Text, codes, text_eq, text_eq_iff, ◌≡◌, refl, true, false, not, none,
  some, List, [], ◌∷◌, arith,
}
use my_eink_library.Users.Accounts.{
  create, set_enabled, hash_password, new_row, append_user, check_email_available,
  create_first_admin, insert_account, has_users, check_password, role_of,
}
use my_eink_library.Users.Tokens.{
  verify_bookmark_token, issue_timed_token, consume_timed_token, new_token, verify_timed_token,
  invite_token, reset_token,
}
use my_eink_library.Users.{
  Bcrypt, UserRow, admin_count, Store, admin, member, bookmark_link, manage_server, user_manager,
  has_id,
}
use my_eink_library.Users.Permissions.{
  valid_permission, permission_eq, can, set_permission_override, first_invalid,
}
use my_eink_library.Users.Invariant.{IsValid, append-IsValid}
use my_eink_library.Users.Operations.{
  Operation, op_set_role, run_all, op_delete, op_set_enabled, op_set_email,
}
use my_eink_library.Users.Lockout.{IsLockedOut, set_enabled-IsLockedOut}
use my_eink_library.Users.TokenLife.{issue_timed_token-verify}
use my_eink_library.Users.TokenUse.{consume_timed_token-once, consume_timed_token-check_password}
use my_eink_library.Users.Access.{can-set_permission_override, verify_bookmark_token-can}
use my_eink_library.Users.Safety.{HasAdmin, run_all-IsValid, run_all-HasAdmin}
use my_eink_library.Users.Login.{create-check_password, create_first_admin_lem}
use my_eink_library.Users.Settings.{
  SettingsDb, get_general_settings, session_secret, save_general_settings, session_secret_stable,
  save_kepub_settings, get_kepub_settings, save_integration_settings, get_integration_settings,
  save_smtp_settings, get_smtp_settings, save-get_settings,
}

pub plain_fits : (password hash : Text) → some password ≡ some hash → text_eq hash password ≡ true
plain_fits password hash h = ground (arith, h, text_eq_iff hash password)

-- A bcrypt that hashes a password to itself.
abbrev pub plain : Bcrypt
plain = record {
  generate = λ salt password. some password;
  compare_hash = text_eq;
  compare-generate = λ salt password hash h. plain_fits password hash h;
}

abbrev empty_store : Store
empty_store = record { users = []; overrides = []; next_id = 1 }

abbrev pub alice : UserRow
alice = record (new_row (codes "alice") (codes "pw") admin true (some (codes "a@x.org")) 0) {
  id = 1;
}

abbrev pub bob : UserRow
bob = record (new_row (codes "bob") (codes "key") member true none 0) {
  id = 2;
  bookmark_token_hash = some (codes "mark");
  reset_token_hash = some (codes "lost");
  reset_token_created_at = some 500;
}

abbrev pub small : Store
small = append_user bob (append_user alice empty_store)

empty_store-IsValid : IsValid empty_store
unfolding count
empty_store-IsValid = record {
  ids_unique = λ id. omega arith;
  ids_below = λ id h. refl;
  ids_positive = refl;
  next_positive = omega arith;
  names_unique = λ n. omega arith;
  emails_unique = λ e. omega arith;
  roles_valid = refl;
}

pub small-IsValid : IsValid small
unfolding count exists text_eq
small-IsValid =
    append-IsValid (append_user alice empty_store) bob
      (append-IsValid empty_store alice empty_store-IsValid
        (record { name_free = refl; email_free = λ e h. refl; role_valid = refl }))
      (record { name_free = refl; email_free = λ e h. cc; role_valid = refl })

abbrev calls : List Operation
calls =
    op_set_role 1 member true
    ∷ op_delete false 2
    ∷ op_set_enabled 1 false
    ∷ op_set_email 1 (codes "b@x.org")
    ∷ []

run_all-IsValid_example : IsValid (run_all plain calls small)
run_all-IsValid_example = run_all-IsValid plain calls small small-IsValid

run_all-HasAdmin_example : HasAdmin (run_all plain calls small)
unfolding count admin_count
run_all-HasAdmin_example = run_all-HasAdmin plain calls small small-IsValid (omega arith)

can-set_permission_override_example :
    can (set_permission_override 2 manage_server (some true) small).1 (codes "bob") manage_server
    ≡ true
unfolding find? valid_permission permission_eq text_eq
can-set_permission_override_example =
    can-set_permission_override 2 manage_server (some true) small bob manage_server refl refl

verify_bookmark_token-can_example : can small (codes "bob") bookmark_link ≡ true
unfolding find? verify_bookmark_token text_eq permission_eq
verify_bookmark_token-can_example =
    verify_bookmark_token-can plain (codes "mark") (codes "bob") small small-IsValid refl

set_enabled-IsLockedOut_example : IsLockedOut plain (codes "bob") (set_enabled 2 false small).1
unfolding find? set_enabled
set_enabled-IsLockedOut_example = set_enabled-IsLockedOut plain 2 small bob small-IsValid refl refl

issue_timed_token-verify_example :
    verify_timed_token plain invite_token 700000
      (codes "new")
      (issue_timed_token plain invite_token 1000 7 (some (codes "new")) (has_id 2) small).1
    ≡ none
unfolding find? count issue_timed_token new_token text_eq
issue_timed_token-verify_example =
    issue_timed_token-verify plain true invite_token 1000 700000 7 (codes "new") small bob
      small-IsValid refl refl refl refl refl

consume_timed_token-check_password_example :
    (name : Text) × (verify_timed_token plain reset_token 1000 (codes "lost") small ≡ some name)
    × (check_password plain name
          (codes "next")
          (consume_timed_token plain reset_token 1000 7 (codes "lost") (codes "next") small).1
        ≡ true)
unfolding find? consume_timed_token verify_timed_token hash_password text_eq
consume_timed_token-check_password_example =
    consume_timed_token-check_password plain reset_token 1000 7 (codes "lost") (codes "next") small
      small-IsValid refl

consume_timed_token-once_example :
    verify_timed_token plain reset_token 1001
      (codes "lost")
      (consume_timed_token plain reset_token 1000 7 (codes "lost") (codes "next") small).1
    ≡ none
unfolding find? count consume_timed_token verify_timed_token hash_password text_eq
consume_timed_token-once_example =
    consume_timed_token-once plain reset_token 1000 1001 7 (codes "lost") (codes "next") small
      small-IsValid refl (omega arith)

create-check_password_example :
    (check_password plain
        (codes "carol")
        (codes "c")
        (create plain 9 7 (codes "carol") (codes "c") user_manager false [] small).1
      ≡ true)
    × (role_of
          (codes "carol")
          (create plain 9 7 (codes "carol") (codes "c") user_manager false [] small).1
        ≡ some user_manager)
unfolding create check_email_available hash_password insert_account exists text_eq
    set_permission_override first_invalid valid_permission permission_eq
create-check_password_example =
    create-check_password plain 9 7 (codes "carol") (codes "c") user_manager false [] small refl

create_first_admin_lem_example :
    ((create_first_admin plain 9 7 (codes "root") (codes "r") empty_store).0
      ≡ ok (not (has_users empty_store)))
    × (has_users empty_store ≡ true
        → (create_first_admin plain 9 7 (codes "root") (codes "r") empty_store).1 ≡ empty_store)
    × (has_users empty_store ≡ false
        → HasAdmin (create_first_admin plain 9 7 (codes "root") (codes "r") empty_store).1
          × (check_password plain
                (codes "root")
                (codes "r")
                (create_first_admin plain 9 7 (codes "root") (codes "r") empty_store).1
              ≡ true))
unfolding hash_password
create_first_admin_lem_example =
    create_first_admin_lem plain 9 7 (codes "root") (codes "r") (codes "r") empty_store refl refl

abbrev unset_settings : SettingsDb
unset_settings = record {
  smtp_settings = none;
  integration_settings = none;
  kepub_settings = none;
  general_settings = none;
  bootstrap_settings = none;
}

save-get_settings_example :
    let general = record (get_general_settings unset_settings) {
      session_ttl = 1500000000;
      page_size = 20;
    } in
    let e = save_general_settings general (
      save_kepub_settings (get_kepub_settings unset_settings) (
        save_integration_settings
          (get_integration_settings unset_settings)
          (save_smtp_settings (get_smtp_settings unset_settings) unset_settings))) in
    (get_smtp_settings e ≡ get_smtp_settings unset_settings)
    × (get_integration_settings e ≡ get_integration_settings unset_settings)
    × (get_kepub_settings e ≡ get_kepub_settings unset_settings)
    × (get_general_settings e ≡ record general { session_ttl = 1000000000 })
save-get_settings_example =
    save-get_settings (get_smtp_settings unset_settings) (get_integration_settings unset_settings)
      (get_kepub_settings unset_settings)
      (record (get_general_settings unset_settings) { session_ttl = 1500000000; page_size = 20 })
      unset_settings

session_secret_stable_example :
    session_secret none (session_secret (some (codes "s3cret")) unset_settings).1
    ≡ (ok (codes "s3cret", false), (session_secret (some (codes "s3cret")) unset_settings).1)
unfolding session_secret
session_secret_stable_example =
    session_secret_stable (some (codes "s3cret")) none unset_settings (codes "s3cret") true refl
      refl
