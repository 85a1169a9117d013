-- ===== src/Users/Lockout.antt =====
-- A disabled account has no permission and no way in: no password, no token signs it in.
use my_eink_library.Common.{
  Option-cases, and_left, ok, find?, count, update, find?_holds, find?_absent, count_implied,
  count-update_one, count-find?, find?_unique, count-and_one, Text, text_eq_refl, text_eq_iff, ℕ,
  ◌≡◌, ◌≢◌, inl, inr, Bool, true, false, ◌&&◌, none, some, arith,
}
use my_eink_library.Users.{Permission, UserRow, Store, Bcrypt, has_id, has_username}
use my_eink_library.Users.Permissions.{enabled_named, can}
use my_eink_library.Users.Accounts.{check_password, set_enabled, set_user}
use my_eink_library.Users.Tokens.{
  TimedToken, verify_bookmark_token, verify_timed_token, bookmark_fits, timed_fits,
}
use my_eink_library.Users.Invariant.{IsValid}
use my_eink_library.Users.Outcome.{with_enabled}

-- What it means for a username to be locked out.
pub record IsLockedOut (b : Bcrypt) (name : Text) (s : Store) : Type 0 where
  pub no_permission : (p : Permission) → can s name p ≡ false
  pub no_password : (password : Text) → check_password b name password s ≡ false
  pub no_bookmark : (token : Text) → verify_bookmark_token b token s ≢ some name
  pub no_timed_token :
      (spec : TimedToken) (now : ℕ) (token : Text)
      → verify_timed_token b spec now token s ≢ some name

module _ (b : Bcrypt) (name : Text) (s : Store)
    (gone : count (enabled_named name) s.users ≡ 0) where
  absent : find? (enabled_named name) s.users ≡ none
  absent = find?_absent (enabled_named name) s.users gone

  no_row :
      (fits : UserRow → Bool) (u : UserRow)
      → find? fits s.users ≡ some u
      → u.enabled ≡ true
      → u.username ≢ name
  no_row fits u found on e =
      ground
        (arith, count-find? (enabled_named name) fits s.users u found, text_eq_iff u.username name)

  no_permission_gone : (p : Permission) → can s name p ≡ false
  unfolding can
  no_permission_gone p = ground (arith, absent)

  no_password_gone : (password : Text) → check_password b name password s ≡ false
  unfolding check_password
  no_password_gone password = rw (absent, check_password)

  no_bookmark_gone : (token : Text) → verify_bookmark_token b token s ≢ some name
  unfolding verify_bookmark_token
  no_bookmark_gone token h = elim (Option-cases (find? (bookmark_fits b s token) s.users)) [
    | inl missing ↦ ground arith
    | inr (u, found) ↦
        no_row (bookmark_fits b s token) u found
          (ground (arith, find?_holds (bookmark_fits b s token) s.users u found)) (ground arith)
  ]

  no_timed_gone :
      (spec : TimedToken) (now : ℕ) (token : Text)
      → verify_timed_token b spec now token s ≢ some name
  unfolding verify_timed_token
  no_timed_gone spec now token h =
      elim (Option-cases (find? (timed_fits b spec now token) s.users)) [
        | inl missing ↦ ground arith
        | inr (u, found) ↦
            no_row (timed_fits b spec now token) u found
              (enabled_of spec u (find?_holds (timed_fits b spec now token) s.users u found))
              (ground arith)
      ]
    where
      enabled_of :
          (k : TimedToken) (u : UserRow) → timed_fits b k now token u ≡ true → u.enabled ≡ true
      enabled_of k u fits = and_left u.enabled _ fits

  IsLockedOut-gone : IsLockedOut b name s
  IsLockedOut-gone = record {
    no_permission = no_permission_gone;
    no_password = no_password_gone;
    no_bookmark = no_bookmark_gone;
    no_timed_token = no_timed_gone;
  }

disabled_gone :
    (id : ℕ) (s : Store) (u : UserRow)
    → IsValid s
    → find? (has_id id) s.users ≡ some u
    → count (enabled_named u.username) (update (has_id id) (with_enabled false) s.users) ≡ 0
disabled_gone id s u v found = ground (
  arith,
  count-update_one (has_id id) (enabled_named u.username) (with_enabled false) s.users u found
      (v.ids_unique id),
  count-and_one (has_username u.username) (λ w. w.enabled) s.users u
      (find?_unique (has_username u.username) (has_id id) s.users u found (text_eq_refl u.username)
        (v.names_unique u.username))
      (v.names_unique u.username),
  count_implied (λ w. w.enabled && has_username u.username w) (enabled_named u.username) s.users
      (λ w. ground arith),
  text_eq_refl u.username,
)

-- Once SetEnabled has disabled an account of a valid database, that username has no permission, no
-- password signs it in, and no bookmark, reset or invite token names it.
pub set_enabled-IsLockedOut :
    (b : Bcrypt) (id : ℕ) (s : Store) (u : UserRow)
    → IsValid s
    → find? (has_id id) s.users ≡ some u
    → (set_enabled id false s).0 ≡ ok tt
    → IsLockedOut b u.username (set_enabled id false s).1
unfolding set_enabled
set_enabled-IsLockedOut b id s u v found done = rw (store_after id s u found done) (
    IsLockedOut-gone b u.username (set_user id (with_enabled false) s)
      (disabled_gone id s u v found))
  where
    store_after :
        (id : ℕ) (s : Store) (u : UserRow)
        → find? (has_id id) s.users ≡ some u
        → (set_enabled id false s).0 ≡ ok tt
        → (set_enabled id false s).1 ≡ set_user id (with_enabled false) s
    store_after id s u found done = ground arith
