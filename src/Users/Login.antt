-- ===== src/Users/Login.antt =====
-- Who can sign in after the accounts of accounts.go are made, and the first administrator.
use my_eink_library.Common.{
  if◌then◌else◌, Bool-cases, Result-cases, and_left, ok, find?, count, count-append,
  find?-append_none, exists-find?, exists_implied, Text, text_eq_refl, is_empty, ℕ, ◌≡◌, refl, inl,
  inr, Bool, true, false, not, none, some, [], ◌∷◌, arith,
}
use my_eink_library.Users.{
  Role, admin, UserRow, Store, Bcrypt, has_username, null_if_empty, admin_count, enabled_admin,
}
use my_eink_library.Users.Permissions.{enabled_named, set_permission_override, first_invalid}
use my_eink_library.Users.Accounts.{
  check_password, role_of, hash_password, create, insert_account, create_first_admin, new_row,
  append_user, username_taken, has_users,
}
use my_eink_library.Users.Safety.{HasAdmin}
use my_eink_library.Users.TokenUse.{hash_password-fits}

-- The row that INSERT adds is the one that its username finds.
found_new :
    (row : UserRow) (s : Store)
    → row.enabled ≡ true
    → username_taken row.username s ≡ false
    → find? (enabled_named row.username) (append_user row s).users
      ≡ some (record row { id = s.next_id })
unfolding find?
found_new row s on new =
    rw
      (find?-append_none (enabled_named row.username) s.users (record row { id = s.next_id } ∷ []) (
        exists-find? (enabled_named row.username) s.users (
          exists_implied (has_username row.username) (enabled_named row.username) s.users
            (λ w. and_left _ _) new)))
      (ground (arith, text_eq_refl row.username))

module _ (b : Bcrypt) where
  check_new :
      (row : UserRow) (password : Text) (s : Store)
      → row.enabled ≡ true
      → username_taken row.username s ≡ false
      → b.compare_hash row.password_hash password ≡ true
      → (check_password b row.username password (append_user row s) ≡ true)
        × (role_of row.username (append_user row s) ≡ some row.role)
  unfolding check_password role_of
  check_new row password s on new fits =
      (ground (arith, found_new row s on new), ground (arith, found_new row s on new))

  insert_check :
      (row : UserRow) (can_bookmark : Bool) (password : Text) (s : Store)
      → row.enabled ≡ true
      → b.compare_hash row.password_hash password ≡ true
      → (insert_account row can_bookmark s).0 ≡ ok tt
      → (check_password b row.username password (insert_account row can_bookmark s).1 ≡ true)
        × (role_of row.username (insert_account row can_bookmark s).1 ≡ some row.role)
  unfolding insert_account set_permission_override first_invalid check_password role_of
  insert_check row can_bookmark password s on fits done =
      elim (Bool-cases (username_taken row.username s)) [
        | inl taken ↦ absurd (ground (arith, taken))
        | inr new ↦ ground (arith, new, found_new row s on new)
      ]

  -- An account that Create has made signs in with its password and has the role that was asked for.
  pub create-check_password :
      (now salt : ℕ) (username password : Text) (role : Role) (can_bookmark : Bool) (email : Text)
      (s : Store)
      → (create b now salt username password role can_bookmark email s).0 ≡ ok tt
      → (check_password b username password
            (create b now salt username password role can_bookmark email s).1
          ≡ true)
        × (role_of username (create b now salt username password role can_bookmark email s).1
            ≡ some role)
  unfolding create
  create-check_password now salt username password role can_bookmark email s done =
      elim (Result-cases (hash_password b salt password)) [
        | inl (e, failed) ↦ absurd (ground (arith, failed))
        | inr (hash, hashed) ↦ ground (
          arith,
          hashed,
          insert_check (new_row username hash role can_bookmark (null_if_empty email) now)
              can_bookmark password s refl (hash_password-fits b salt password hash hashed),
        )
      ]

  password_given :
      (salt : ℕ) (password hash : Text)
      → hash_password b salt password ≡ ok hash
      → is_empty password ≡ false
  unfolding hash_password
  password_given salt [] hash h = cc
  password_given salt (c ∷ s) hash h = refl

  first_admin_eq :
      (now salt : ℕ) (username password hash : Text) (s : Store)
      → is_empty username ≡ false
      → hash_password b salt password ≡ ok hash
      → create_first_admin b now salt username password s ≡ (
          if has_users s
          then (ok false, s)
          else (ok true, append_user (new_row username hash admin true none now) s))
  unfolding create_first_admin
  first_admin_eq now salt username password hash s named hashed =
      rw (named, password_given salt password hash hashed, hashed)

  first_admin_row :
      (now : ℕ) (username password hash : Text) (s : Store)
      → has_users s ≡ false
      → b.compare_hash hash password ≡ true
      → HasAdmin (append_user (new_row username hash admin true none now) s)
        × (check_password b username password
              (append_user (new_row username hash admin true none now) s)
            ≡ true)
  unfolding has_users admin_count count
  first_admin_row now username password hash s fresh fits = (
    rw (count-append enabled_admin s.users) (omega arith),
    (check_new (new_row username hash admin true none now) password s refl
        (exists_implied (λ u. true) (has_username username) s.users (λ u h. refl) fresh) fits).0,
  )

  -- CreateFirstAdmin with a username and a password that hash makes an enabled administrator, who
  -- signs in with the password, exactly if no account exists; otherwise it changes nothing.
  pub create_first_admin_lem :
      (now salt : ℕ) (username password hash : Text) (s : Store)
      → is_empty username ≡ false
      → hash_password b salt password ≡ ok hash
      → ((create_first_admin b now salt username password s).0 ≡ ok (not (has_users s)))
        × (has_users s ≡ true → (create_first_admin b now salt username password s).1 ≡ s)
        × (has_users s ≡ false
            → HasAdmin (create_first_admin b now salt username password s).1
              × (check_password b username password
                    (create_first_admin b now salt username password s).1
                  ≡ true))
  create_first_admin_lem now salt username password hash s named hashed =
      rw (first_admin_eq now salt username password hash s named hashed)
        (elim (Bool-cases (has_users s)) [
          | inl used ↦ rw used (refl, (λ h. refl), λ h. cc)
          | inr fresh ↦ rw fresh (
            refl,
            (λ h. cc),
            λ h.
                first_admin_row now username password hash s fresh
                  (hash_password-fits b salt password hash hashed),
          )
        ])
