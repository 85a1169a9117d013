-- ===== src/Users/Invariant.antt =====
-- The invariant of the users database, and how its statements keep it.
use my_eink_library.Common.{
  Option-cases, find?, count, update, delete, count-append, update_absent, count-update_keeps,
  count-delete-le, count_of_none, count_of_not_exists, count-update_one, count_split, count-and_one,
  count-update_lowers, Text, text_eq_iff, ℕ, ◌≤◌, ◌≡◌, refl, inl, inr, Bool, true, false, not, ◌&&◌,
  some, [], ◌∷◌, arith,
}
use my_eink_library.Users.{
  valid_role, UserRow, Store, has_id, has_username, email_is, Role, null_if_empty,
}
use my_eink_library.Users.Accounts.{
  write_role, assign_role, append_user, username_taken, check_email_available, email_of_other,
  set_user,
}

abbrev pub has_email : Text → UserRow → Bool
has_email e u = email_is e u.email

abbrev pub has_invalid_role : UserRow → Bool
has_invalid_role u = not (valid_role u.role)

-- Ids, usernames and addresses are unique, ids are those that AUTOINCREMENT gave, and every role is
-- one of the four.
pub record IsValid (s : Store) : Type 0 where
  pub ids_unique : (id : ℕ) → count (has_id id) s.users ≤ 1
  pub ids_below : (id : ℕ) → s.next_id ≤ id → count (has_id id) s.users ≡ 0
  pub ids_positive : count (has_id 0) s.users ≡ 0
  pub next_positive : 1 ≤ s.next_id
  pub names_unique : (n : Text) → count (has_username n) s.users ≤ 1
  pub emails_unique : (e : Text) → count (has_email e) s.users ≤ 1
  pub roles_valid : count has_invalid_role s.users ≡ 0

-- An update that leaves the columns alone that the invariant speaks of.
pub record KeepsKeys (f : UserRow → UserRow) : Type 0 where
  pub id : (u : UserRow) → (f u).id ≡ u.id
  pub username : (u : UserRow) → (f u).username ≡ u.username
  pub email : (u : UserRow) → (f u).email ≡ u.email
  pub role : (u : UserRow) → (f u).role ≡ u.role

module _ (p : UserRow → Bool) (f : UserRow → UserRow) (k : KeepsKeys f) (s : Store) where
  pub update-IsValid : IsValid s → IsValid (record s { users = update p f s.users })
  update-IsValid v = record {
    ids_unique =
        λ id. rw (count-update_keeps p (has_id id) f s.users (λ u. rw (k.id u))) (v.ids_unique id);
    ids_below = λ id h.
        rw (count-update_keeps p (has_id id) f s.users (λ u. rw (k.id u))) (v.ids_below id h);
    ids_positive = rw (count-update_keeps p (has_id 0) f s.users (λ u. rw (k.id u))) v.ids_positive;
    next_positive = v.next_positive;
    names_unique = λ n.
        rw (count-update_keeps p (has_username n) f s.users (λ u. rw (k.username u)))
          (v.names_unique n);
    emails_unique = λ e.
        rw (count-update_keeps p (has_email e) f s.users (λ u. rw (k.email u))) (v.emails_unique e);
    roles_valid =
        rw (count-update_keeps p has_invalid_role f s.users (λ u. rw (k.role u))) v.roles_valid;
  }

-- What a statement needs that the row of an INSERT may join the table.
pub record MayJoin (s : Store) (row : UserRow) : Type 0 where
  pub name_free : username_taken row.username s ≡ false
  pub email_free : (e : Text) → row.email ≡ some e → count (has_email e) s.users ≡ 0
  pub role_valid : valid_role row.role ≡ true

module _ (s : Store) (row : UserRow) (v : IsValid s) (j : MayJoin s row) where
  names_after : (n : Text) → count (has_username n) (append_user row s).users ≤ 1
  unfolding count
  names_after n = rw (count-append (has_username n) s.users) (
      ground (
        arith,
        v.names_unique n,
        text_eq_iff row.username n,
        count_of_not_exists (has_username row.username) s.users j.name_free,
      ))

  emails_after : (e : Text) → count (has_email e) (append_user row s).users ≤ 1
  unfolding count
  emails_after e = rw (count-append (has_email e) s.users) (elim (Option-cases row.email) [
    | inl absent ↦ rw absent (ground (arith, v.emails_unique e))
    | inr (f, present) ↦
        rw present (ground (arith, v.emails_unique e, text_eq_iff f e, j.email_free f present))
  ])

  pub append-IsValid : IsValid (append_user row s)
  unfolding count
  append-IsValid = record {
    ids_unique = λ id.
        rw (count-append (has_id id) s.users) (ground (arith, v.ids_unique id, v.ids_below id));
    ids_below = λ id h. rw (count-append (has_id id) s.users) (ground (arith, v.ids_below id));
    ids_positive =
        rw (count-append (has_id 0) s.users) (ground (arith, v.ids_positive, v.next_positive));
    next_positive = omega arith;
    names_unique = names_after;
    emails_unique = emails_after;
    roles_valid =
        rw (count-append has_invalid_role s.users) (ground (arith, v.roles_valid, j.role_valid));
  }

pub delete-IsValid :
    (p : UserRow → Bool) (s : Store) → IsValid s → IsValid (record s { users = delete p s.users })
delete-IsValid p s v = record {
  ids_unique = λ id. omega (arith, count-delete-le p (has_id id) s.users, v.ids_unique id);
  ids_below = λ id h. omega (arith, count-delete-le p (has_id id) s.users, v.ids_below id h);
  ids_positive = omega (arith, count-delete-le p (has_id 0) s.users, v.ids_positive);
  next_positive = v.next_positive;
  names_unique = λ n. omega (arith, count-delete-le p (has_username n) s.users, v.names_unique n);
  emails_unique = λ e. omega (arith, count-delete-le p (has_email e) s.users, v.emails_unique e);
  roles_valid = omega (arith, count-delete-le p has_invalid_role s.users, v.roles_valid);
}

-- A row whose address is free for `id` counts for that address only under `id`.
pub available-count :
    (c : ℕ) (e : Text) (id : ℕ) (s : Store)
    → check_email_available (c ∷ e) id s ≡ true
    → count (λ u. has_email (c ∷ e) u && not (has_id id u)) s.users ≡ 0
unfolding check_email_available
available-count c e id s h = count_of_none (email_of_other (c ∷ e) id) s.users (ground arith)

module _ (id : ℕ) (role : Role) (can_bookmark : Bool) (s : Store) (v : IsValid s) where
  pub write_role-IsValid : valid_role role ≡ true → IsValid (write_role id role can_bookmark s)
  unfolding write_role
  write_role-IsValid h = record {
    ids_unique = λ i.
        rw
          (count-update_keeps (has_id id) (has_id i) (assign_role role can_bookmark) s.users
            (λ u. refl))
          (v.ids_unique i);
    ids_below = λ i below.
        rw
          (count-update_keeps (has_id id) (has_id i) (assign_role role can_bookmark) s.users
            (λ u. refl))
          (v.ids_below i below);
    ids_positive =
        rw
          (count-update_keeps (has_id id) (has_id 0) (assign_role role can_bookmark) s.users
            (λ u. refl))
          v.ids_positive;
    next_positive = v.next_positive;
    names_unique = λ n.
        rw
          (count-update_keeps (has_id id) (has_username n) (assign_role role can_bookmark) s.users
            (λ u. refl))
          (v.names_unique n);
    emails_unique = λ e.
        rw
          (count-update_keeps (has_id id) (has_email e) (assign_role role can_bookmark) s.users
            (λ u. refl))
          (v.emails_unique e);
    roles_valid = omega (
      arith,
      v.roles_valid,
      count-update_lowers (has_id id) has_invalid_role (assign_role role can_bookmark) s.users
          (λ u. rw h),
    );
  }

abbrev pub with_email : Text → UserRow → UserRow
with_email email u = record u { email = null_if_empty email }

module _ (id : ℕ) (email : Text) (s : Store) (v : IsValid s) where
  emails_after_set :
      check_email_available email id s ≡ true
      → (e : Text) → count (has_email e) (update (has_id id) (with_email email) s.users) ≤ 1
  emails_after_set h e = elim (Option-cases (find? (has_id id) s.users)) [
    | inl absent ↦
        rw (update_absent (has_id id) (with_email email) s.users absent) (v.emails_unique e)
    | inr (r, found) ↦ after_found email r found h
  ]
    where
      after_found :
          (m : Text) (r : UserRow)
          → find? (has_id id) s.users ≡ some r
          → check_email_available m id s ≡ true
          → count (has_email e) (update (has_id id) (with_email m) s.users) ≤ 1
      after_found [] r found free = ground (
        arith,
        v.emails_unique e,
        count-update_one (has_id id) (has_email e) (with_email []) s.users r found
            (v.ids_unique id),
      )
      after_found (c ∷ m) r found free = ground (
        arith,
        v.emails_unique e,
        text_eq_iff (c ∷ m) e,
        count-update_one (has_id id) (has_email e) (with_email (c ∷ m)) s.users r found
            (v.ids_unique id),
        available-count c m id s free,
        count_split (has_email (c ∷ m)) (has_id id) s.users,
        count-and_one (has_id id) (has_email (c ∷ m)) s.users r found (v.ids_unique id),
      )

  pub set_email-IsValid :
      check_email_available email id s ≡ true → IsValid (set_user id (with_email email) s)
  set_email-IsValid h = record {
    ids_unique = λ i.
        rw (count-update_keeps (has_id id) (has_id i) (with_email email) s.users (λ u. refl))
          (v.ids_unique i);
    ids_below = λ i below.
        rw (count-update_keeps (has_id id) (has_id i) (with_email email) s.users (λ u. refl))
          (v.ids_below i below);
    ids_positive =
        rw (count-update_keeps (has_id id) (has_id 0) (with_email email) s.users (λ u. refl))
          v.ids_positive;
    next_positive = v.next_positive;
    names_unique = λ n.
        rw (count-update_keeps (has_id id) (has_username n) (with_email email) s.users (λ u. refl))
          (v.names_unique n);
    emails_unique = emails_after_set h;
    roles_valid =
        rw (count-update_keeps (has_id id) has_invalid_role (with_email email) s.users (λ u. refl))
          v.roles_valid;
  }
