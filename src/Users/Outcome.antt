-- ===== src/Users/Outcome.antt =====
-- The seven ways in which a method changes the table `users`, each with what its guards established.
-- Every method of tokens.go, accounts.go and permissions.go ends in one of them.
use my_eink_library.Common.{
  if◌then◌else◌, Bool-cases, Option-cases, Result-cases, ok, find?, count, exists, update, delete,
  count_implied, count_split, exists_implied, Text, is_empty, ℕ, ◌≡◌, refl, inl, inr, Bool, true,
  false, not, ◌&&◌, ◌||◌, none, some, List, [], ◌∷◌, arith,
}
use my_eink_library.Users.{
  Role, is_admin, valid_role, UserRow, Override, Store, Bcrypt, has_id, has_username, null_if_empty,
  bookmark_link, admin,
}
use my_eink_library.Users.Permissions.{
  set_permission_override, first_invalid, valid_permission, permission_eq,
}
use my_eink_library.Users.Accounts.{
  new_row, append_user, username_taken, set_user, check_email_available, has_users, is_last_admin,
  write_role, set_role, delete_user, set_enabled, set_email, hash_password, create_first_admin,
  insert_account, create, reset_password,
}
use my_eink_library.Users.Invariant.{
  KeepsKeys, MayJoin, with_email, IsValid, has_email, available-count,
}

-- The update leaves alone what makes an enabled administrator.
pub record KeepsRank (f : UserRow → UserRow) : Type 0 where
  pub role : (u : UserRow) → (f u).role ≡ u.role
  pub enabled : (u : UserRow) → (f u).enabled ≡ u.enabled

abbrev pub with_enabled : Bool → UserRow → UserRow
with_enabled enabled u = record u { enabled = enabled }

pub data Outcome (s : Store) : Store → Type 0 where
  unchanged : (o : List Override) → Outcome s (record s { overrides = o })
  updated :
      (p : UserRow → Bool) (f : UserRow → UserRow)
      → KeepsKeys f
      → KeepsRank f
      → Outcome s (record s { users = update p f s.users })
  joined :
      (row : UserRow) (o : List Override)
      → MayJoin s row
      → Outcome s (record (append_user row s) { overrides = o })
  promoted :
      (id : ℕ) (role : Role) (can_bookmark : Bool)
      → is_admin role ≡ true
      → valid_role role ≡ true
      → Outcome s (write_role id role can_bookmark s)
  demoted :
      (id : ℕ) (role : Role) (can_bookmark : Bool) (u : UserRow)
      → valid_role role ≡ true
      → find? (has_id id) s.users ≡ some u
      → is_last_admin u s ≡ false
      → Outcome s (write_role id role can_bookmark s)
  removed :
      (id : ℕ) (u : UserRow) (o : List Override)
      → find? (has_id id) s.users ≡ some u
      → is_last_admin u s ≡ false
      → Outcome s (record s { users = delete (has_id id) s.users; overrides = o })
  switched :
      (id : ℕ) (enabled : Bool) (u : UserRow)
      → find? (has_id id) s.users ≡ some u
      → (not enabled && is_last_admin u s) ≡ false
      → Outcome s (set_user id (with_enabled enabled) s)
  readdressed :
      (id : ℕ) (email : Text)
      → check_email_available email id s ≡ true
      → Outcome s (set_user id (with_email email) s)

pub stays : (s : Store) → Outcome s s
stays s = unchanged s.overrides

pub set_role-Outcome :
    (id : ℕ) (role : Role) (can_bookmark : Bool) (s : Store)
    → Outcome s (set_role id role can_bookmark s).1
unfolding set_role
set_role-Outcome id role can_bookmark s = elim (Bool-cases (valid_role role)) [
  | inr bad ↦ rw bad (stays s)
  | inl good ↦ rw good (elim (Bool-cases (is_admin role)) [
    | inl top ↦ rw top (promoted id role can_bookmark top good)
    | inr low ↦ rw low (elim (Option-cases (find? (has_id id) s.users)) [
      | inl absent ↦ rw (absent, set_role) (stays s)
      | inr (u, found) ↦
          rw (found, set_role)
            (elim (Bool-cases (is_last_admin u s)) [
              | inl last ↦ rw last (stays s)
              | inr other ↦ rw other (demoted id role can_bookmark u good found other)
            ])
    ])
  ])
]

pub delete_user-Outcome :
    (foreign_keys : Bool) (id : ℕ) (s : Store) → Outcome s (delete_user foreign_keys id s).1
unfolding delete_user
delete_user-Outcome foreign_keys id s = elim (Option-cases (find? (has_id id) s.users)) [
  | inl absent ↦ rw (absent, delete_user) (stays s)
  | inr (u, found) ↦
      rw (found, delete_user)
        (elim (Bool-cases (is_last_admin u s)) [
          | inl last ↦ rw last (stays s)
          | inr other ↦ rw other (removed id u _ found other)
        ])
]

pub set_enabled-Outcome :
    (id : ℕ) (enabled : Bool) (s : Store) → Outcome s (set_enabled id enabled s).1
unfolding set_enabled
set_enabled-Outcome id enabled s = elim (Option-cases (find? (has_id id) s.users)) [
  | inl absent ↦ rw (absent, set_enabled) (stays s)
  | inr (u, found) ↦
      rw (found, set_enabled)
        (elim (Bool-cases (not enabled && is_last_admin u s)) [
          | inl last ↦ rw last (stays s)
          | inr other ↦ rw other (switched id enabled u found other)
        ])
]

pub set_email-Outcome : (id : ℕ) (email : Text) (s : Store) → Outcome s (set_email id email s).1
unfolding set_email
set_email-Outcome id email s = elim (Bool-cases (check_email_available email id s)) [
  | inl free ↦ rw free (readdressed id email free)
  | inr taken ↦ rw taken (stays s)
]

-- The guards of an INSERT other than the UNIQUE constraint.
pub email_free_of :
    (email : Text) (s : Store)
    → check_email_available email 0 s ≡ true
    → IsValid s
    → (e : Text) → null_if_empty email ≡ some e
    → count (has_email e) s.users ≡ 0
email_free_of [] s free v e h = cc
email_free_of (c ∷ m) s free v e h = ground (
  arith,
  available-count c m 0 s free,
  v.ids_positive,
  count_split (has_email (c ∷ m)) (has_id 0) s.users,
  count_implied (has_id 0) (λ u. has_email (c ∷ m) u && has_id 0 u) s.users (λ u. ground arith),
)

pub insert_account-Outcome :
    (row : UserRow) (can_bookmark : Bool) (s : Store)
    → ((e : Text) → row.email ≡ some e → count (has_email e) s.users ≡ 0)
    → valid_role row.role ≡ true
    → Outcome s (insert_account row can_bookmark s).1
unfolding insert_account set_permission_override first_invalid valid_permission permission_eq
insert_account-Outcome row can_bookmark s free good =
    elim (Bool-cases (username_taken row.username s)) [
      | inl taken ↦ rw taken (stays s)
      | inr new ↦
          rw new
            (after can_bookmark (record { name_free = new; email_free = free; role_valid = good }))
    ]
  where
    after :
        (c : Bool)
        → MayJoin s row
        → Outcome s
            (if c
              then (ok tt, append_user row s)
              else set_permission_override s.next_id bookmark_link
                  (some false)
                  (append_user row s)).1
    after true j = joined row s.overrides j
    after false j = joined row _ j

module _ (b : Bcrypt) where
  pub create_first_admin-Outcome :
      (now salt : ℕ) (username password : Text) (s : Store)
      → Outcome s (create_first_admin b now salt username password s).1
  unfolding create_first_admin has_users
  create_first_admin-Outcome now salt username password s =
      elim (Bool-cases (is_empty username || is_empty password)) [
        | inl blank ↦ rw blank (stays s)
        | inr given ↦ rw given (elim (Result-cases (hash_password b salt password)) [
          | inl (e, failed) ↦ rw failed (stays s)
          | inr (hash, hashed) ↦ rw hashed (elim (Bool-cases (exists (λ u. true) s.users)) [
            | inl used ↦ rw used (stays s)
            | inr fresh ↦ rw fresh (
                joined (new_row username hash admin true none now) s.overrides (record {
                  name_free =
                      exists_implied (λ u. true) (has_username username) s.users (λ u h. refl)
                        fresh;
                  email_free = λ e h. cc;
                  role_valid = refl;
                }))
          ])
        ])
      ]

  pub create-Outcome :
      (now salt : ℕ) (username password : Text) (role : Role) (can_bookmark : Bool) (email : Text)
      (s : Store)
      → IsValid s
      → Outcome s (create b now salt username password role can_bookmark email s).1
  unfolding create
  create-Outcome now salt username password role can_bookmark email s v =
      elim (Bool-cases (is_empty username || is_empty password)) [
        | inl blank ↦ rw blank (stays s)
        | inr given ↦ rw given (elim (Bool-cases (valid_role role)) [
          | inr bad ↦ rw bad (stays s)
          | inl good ↦ rw good (elim (Bool-cases (check_email_available email 0 s)) [
            | inr taken ↦ rw taken (stays s)
            | inl free ↦ rw free (elim (Result-cases (hash_password b salt password)) [
              | inl (e, failed) ↦ rw failed (stays s)
              | inr (hash, hashed) ↦ rw hashed (
                  insert_account-Outcome
                    (new_row username hash role can_bookmark (null_if_empty email) now) can_bookmark
                    s (email_free_of email s free v) good)
            ])
          ])
        ])
      ]

  pub reset_password-Outcome :
      (salt id : ℕ) (password : Text) (s : Store)
      → Outcome s (reset_password b salt id password s).1
  unfolding reset_password
  reset_password-Outcome salt id password s = elim (Result-cases (hash_password b salt password)) [
    | inl (e, failed) ↦ rw (failed, reset_password) (stays s)
    | inr (hash, hashed) ↦
        rw (hashed, reset_password)
          (updated (has_id id) (λ u. record u { password_hash = hash })
            (record { id = λ u. refl; username = λ u. refl; email = λ u. refl; role = λ u. refl })
            (record { role = λ u. refl; enabled = λ u. refl }))
  ]
