-- ===== src/Users/Safety.antt =====
-- The two properties of every outcome: the invariant of the table is kept, and so is an enabled
-- administrator, once there is one.
use my_eink_library.Common.{
  leb, find?, count, update, delete, count-append, count-update_keeps, count-update_one,
  count-delete_one, count-update_raises, ℕ, ◌≤◌, ◌≡◌, refl, ◌⊎◌, true, false, some, List, [], ◌∷◌,
  arith,
}
use my_eink_library.Users.{UserRow, Override, Store, Bcrypt, has_id, enabled_admin, admin_count}
use my_eink_library.Users.Accounts.{append_user, assign_role, write_role}
use my_eink_library.Users.Invariant.{
  IsValid, update-IsValid, append-IsValid, delete-IsValid, write_role-IsValid, set_email-IsValid,
  with_email,
}
use my_eink_library.Users.Outcome.{
  Outcome, unchanged, updated, joined, promoted, demoted, removed, switched, readdressed,
  with_enabled, set_role-Outcome, delete_user-Outcome, set_enabled-Outcome, set_email-Outcome,
  create_first_admin-Outcome, create-Outcome, reset_password-Outcome,
}
use my_eink_library.Users.TokenOutcome.{
  set_permission_overrides-Outcome, set_digest_subscribed-Outcome, revoke_bookmark_token-Outcome,
  generate_bookmark_token-Outcome, consume_timed_token-Outcome, request_password_reset-Outcome,
  resend_invite-Outcome, invite_user-Outcome,
}
use my_eink_library.Users.Operations.{
  Operation, op_create_first_admin, op_create, op_set_role, op_delete, op_set_enabled, op_set_email,
  op_reset_password, op_set_digest_subscribed, op_set_permissions, op_generate_bookmark,
  op_revoke_bookmark, op_request_reset, op_consume, op_invite, op_resend_invite, run, run_all,
}

-- The overrides are not the invariant's.
IsValid-overrides :
    (s : Store) (o : List Override) → IsValid s → IsValid (record s { overrides = o })
IsValid-overrides s o v = record {
  ids_unique = v.ids_unique;
  ids_below = v.ids_below;
  ids_positive = v.ids_positive;
  next_positive = v.next_positive;
  names_unique = v.names_unique;
  emails_unique = v.emails_unique;
  roles_valid = v.roles_valid;
}

pub Outcome-IsValid : {s t : Store} → Outcome s t → IsValid s → IsValid t
Outcome-IsValid {s} (unchanged o) v = IsValid-overrides s o v
Outcome-IsValid {s} (updated p f keys rank) v = update-IsValid p f keys s v
Outcome-IsValid {s} (joined row o j) v =
    IsValid-overrides (append_user row s) o (append-IsValid s row v j)
Outcome-IsValid {s} (promoted id role c top good) v = write_role-IsValid id role c s v good
Outcome-IsValid {s} (demoted id role c u good found other) v = write_role-IsValid id role c s v good
Outcome-IsValid {s} (removed id u o found other) v =
    IsValid-overrides (record s { users = delete (has_id id) s.users }) o
      (delete-IsValid (has_id id) s v)
Outcome-IsValid {s} (switched id enabled u found other) v =
    update-IsValid (has_id id) (with_enabled enabled)
      (record { id = λ w. refl; username = λ w. refl; email = λ w. refl; role = λ w. refl }) s v
Outcome-IsValid {s} (readdressed id email free) v = set_email-IsValid id email s v free

abbrev pub HasAdmin : Store → Type 0
HasAdmin s = 1 ≤ admin_count s

-- The row that loses its rank was one of two at least.
keeps_other :
    (id : ℕ) (f : UserRow → UserRow) (s : Store) (u : UserRow)
    → IsValid s
    → find? (has_id id) s.users ≡ some u
    → (enabled_admin u ≡ false) ⊎ ((leb (admin_count s) 1 ≡ false) ⊎ (enabled_admin (f u) ≡ true))
    → HasAdmin s
    → 1 ≤ count enabled_admin (update (has_id id) f s.users)
unfolding admin_count
keeps_other id f s u v found other h =
    ground (arith, count-update_one (has_id id) enabled_admin f s.users u found (v.ids_unique id))

pub Outcome-HasAdmin : {s t : Store} → Outcome s t → IsValid s → HasAdmin s → HasAdmin t
unfolding admin_count write_role count
Outcome-HasAdmin {s} (unchanged o) v h = h
Outcome-HasAdmin {s} (updated p f keys rank) v h =
    rw (count-update_keeps p enabled_admin f s.users (λ u. rw (rank.role u, rank.enabled u))) h
Outcome-HasAdmin {s} (joined row o j) v h = rw (count-append enabled_admin s.users) (omega arith)
Outcome-HasAdmin {s} (promoted id role c top good) v h = omega (
  arith,
  count-update_raises (has_id id) enabled_admin (assign_role role c) s.users
      (λ u e. rw top (ground arith)),
)
Outcome-HasAdmin {s} (demoted id role c u good found other) v h =
    keeps_other id (assign_role role c) s u v found (ground arith) h
Outcome-HasAdmin {s} (removed id u o found other) v h =
    ground (arith, count-delete_one (has_id id) enabled_admin s.users u found (v.ids_unique id))
Outcome-HasAdmin {s} (switched id enabled u found other) v h =
    keeps_other id (with_enabled enabled) s u v found (ground arith) h
Outcome-HasAdmin {s} (readdressed id email free) v h =
    rw (count-update_keeps (has_id id) enabled_admin (with_email email) s.users (λ u. refl)) h

module _ (b : Bcrypt) where
  pub run-Outcome : (o : Operation) (s : Store) → IsValid s → Outcome s (run b o s)
  unfolding run
  run-Outcome (op_create_first_admin now salt name password) s v =
      create_first_admin-Outcome b now salt name password s
  run-Outcome (op_create now salt name password role c email) s v =
      create-Outcome b now salt name password role c email s v
  run-Outcome (op_set_role id role c) s v = set_role-Outcome id role c s
  run-Outcome (op_delete foreign_keys id) s v = delete_user-Outcome foreign_keys id s
  run-Outcome (op_set_enabled id enabled) s v = set_enabled-Outcome id enabled s
  run-Outcome (op_set_email id email) s v = set_email-Outcome id email s
  run-Outcome (op_reset_password salt id password) s v = reset_password-Outcome b salt id password s
  run-Outcome (op_set_digest_subscribed name subscribed) s v =
      set_digest_subscribed-Outcome name subscribed s
  run-Outcome (op_set_permissions id overrides) s v =
      set_permission_overrides-Outcome id overrides s
  run-Outcome (op_generate_bookmark now salt drawn name) s v =
      generate_bookmark_token-Outcome b now salt drawn name s
  run-Outcome (op_revoke_bookmark name) s v = revoke_bookmark_token-Outcome name s
  run-Outcome (op_request_reset now salt drawn email) s v =
      request_password_reset-Outcome b now salt drawn email s
  run-Outcome (op_consume spec now salt token password) s v =
      consume_timed_token-Outcome b spec now salt token password s
  run-Outcome (op_invite now salt placeholder drawn name email role c) s v =
      invite_user-Outcome b now salt placeholder drawn name email role c s v
  run-Outcome (op_resend_invite now salt drawn id) s v = resend_invite-Outcome b now salt drawn id s

  -- Whatever methods are called in whatever order on a valid database, ids, usernames and addresses
  -- stay unique and every role stays one of the four.
  pub run_all-IsValid : (os : List Operation) (s : Store) → IsValid s → IsValid (run_all b os s)
  unfolding run_all
  run_all-IsValid [] s v = v
  run_all-IsValid (o ∷ os) s v =
      run_all-IsValid os (run b o s) (Outcome-IsValid (run-Outcome o s v) v)

  -- A valid database that has an enabled administrator has one after any sequence of method calls.
  pub run_all-HasAdmin :
      (os : List Operation) (s : Store) → IsValid s → HasAdmin s → HasAdmin (run_all b os s)
  unfolding run_all
  run_all-HasAdmin [] s v h = h
  run_all-HasAdmin (o ∷ os) s v h =
      run_all-HasAdmin os (run b o s) (Outcome-IsValid (run-Outcome o s v) v)
        (Outcome-HasAdmin (run-Outcome o s v) v h)
