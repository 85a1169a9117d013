-- ===== src/Users/TokenUse.antt =====
-- What consumeTimedToken does when it succeeds: the new password signs in, and the token is spent.
use my_eink_library.Common.{
  Option-cases, Result-cases, and_left, ok, find?, count, find?_holds, find?_absent, count_implied,
  count-update_one, find?_unique, find?-update_found, Text, text_eq_refl, is_empty, ℕ, ◌≤◌, ◌≡◌,
  refl, inl, inr, Bool, true, false, none, some, [], ◌∷◌, arith,
}
use my_eink_library.Users.{UserRow, Store, Bcrypt, has_username}
use my_eink_library.Users.Permissions.{enabled_named}
use my_eink_library.Users.Accounts.{check_password, set_named, hash_password}
use my_eink_library.Users.Tokens.{
  TimedToken, reset_token, invite_token, hash_column, hash_fits, timed_fits, verify_timed_token,
  consume_timed_token,
}
use my_eink_library.Users.Invariant.{IsValid}
use my_eink_library.Users.TokenOutcome.{spend}
use my_eink_library.Users.TokenLife.{verify_found, verify_absent}
use my_eink_library.Users.Access.{row_of_name}

module _ (b : Bcrypt) where
  pub hash_password-fits :
      (salt : ℕ) (password hash : Text)
      → hash_password b salt password ≡ ok hash
      → b.compare_hash hash password ≡ true
  unfolding hash_password
  hash_password-fits salt [] hash h = cc
  hash_password-fits salt (c ∷ s) hash h = ground (arith, b.compare-generate salt (c ∷ s) hash)

  -- What a successful call found and computed.
  record Used (spec : TimedToken) (now salt : ℕ) (token password : Text) (s : Store) : Type 0 where
    user : UserRow
    hash : Text
    given : is_empty token ≡ false
    found : find? (timed_fits b spec now token) s.users ≡ some user
    hashed : hash_password b salt password ≡ ok hash
    after :
        (consume_timed_token b spec now salt token password s).1
        ≡ set_named user.username (spend spec hash) s

  used :
      (spec : TimedToken) (now salt : ℕ) (token password : Text) (s : Store)
      → (consume_timed_token b spec now salt token password s).0 ≡ ok tt
      → Used spec now salt token password s
  unfolding consume_timed_token verify_timed_token
  used spec now salt token password s done =
      elim (Option-cases (find? (timed_fits b spec now token) s.users)) [
        | inl absent ↦ absurd (ground (arith, absent))
        | inr (u, found) ↦ elim (Result-cases (hash_password b salt password)) [
          | inl (e, failed) ↦ absurd (ground (arith, found, failed))
          | inr (hash, hashed) ↦ record {
            user = u;
            hash = hash;
            given = ground (arith, found, hashed);
            found = found;
            hashed = hashed;
            after = ground (arith, found, hashed);
          }
        ]
      ]

  spend_name :
      (spec : TimedToken) (hash : Text) (w : UserRow) → (spend spec hash w).username ≡ w.username
  spend_name reset_token hash w = refl
  spend_name invite_token hash w = refl

  spend_enabled :
      (spec : TimedToken) (hash : Text) (w : UserRow) → (spend spec hash w).enabled ≡ w.enabled
  spend_enabled reset_token hash w = refl
  spend_enabled invite_token hash w = refl

  spend_hash :
      (spec : TimedToken) (hash : Text) (w : UserRow) → (spend spec hash w).password_hash ≡ hash
  spend_hash reset_token hash w = refl
  spend_hash invite_token hash w = refl

  spend_column :
      (spec : TimedToken) (hash token : Text) (w : UserRow)
      → hash_fits b (hash_column spec (spend spec hash w)) token ≡ false
  spend_column reset_token hash token w = refl
  spend_column invite_token hash token w = refl

  password_after :
      (spec : TimedToken) (hash password : Text) (s : Store) (u : UserRow)
      → find? (enabled_named u.username) s.users ≡ some u
      → b.compare_hash hash password ≡ true
      → check_password b u.username password (set_named u.username (spend spec hash) s) ≡ true
  unfolding check_password
  password_after spec hash password s u found fits =
      rw
        (
          find?-update_found (has_username u.username) (enabled_named u.username) (spend spec hash)
              s.users u found (text_eq_refl u.username)
              (λ w. rw (spend_name spec hash w, spend_enabled spec hash w)),
          check_password,
        )
        (rw (spend_hash spec hash u) fits)

  -- A call of consumeTimedToken on a valid database that succeeds was given a token that names a
  -- user, and that user signs in with the new password afterwards.
  pub consume_timed_token-check_password :
      (spec : TimedToken) (now salt : ℕ) (token password : Text) (s : Store)
      → IsValid s
      → (consume_timed_token b spec now salt token password s).0 ≡ ok tt
      → (name : Text) × (verify_timed_token b spec now token s ≡ some name)
        × (check_password b name password (consume_timed_token b spec now salt token password s).1
            ≡ true)
  consume_timed_token-check_password spec now salt token password s v done =
      let w = used spec now salt token password s done in
      (
        w.user.username,
        verify_found b spec now token s w.user w.given w.found,
        rw w.after (
            password_after spec w.hash password s w.user
              (row_of_name (timed_fits b spec now token) s w.user v w.found (
                and_left w.user.enabled _
                  (find?_holds (timed_fits b spec now token) s.users w.user w.found)))
              (hash_password-fits salt password w.hash w.hashed)),
      )

  spent :
      (spec : TimedToken) (now later : ℕ) (token hash : Text) (s : Store) (u : UserRow)
      → IsValid s
      → find? (timed_fits b spec now token) s.users ≡ some u
      → count (λ w. hash_fits b (hash_column spec w) token) s.users ≤ 1
      → count (timed_fits b spec later token) (set_named u.username (spend spec hash) s).users ≡ 0
  spent spec now later token hash s u v found one =
      let fits : UserRow → Bool = λ w. hash_fits b (hash_column spec w) token in
      ground (
        arith,
        count-update_one (has_username u.username) fits (spend spec hash) s.users u
            (find?_unique (has_username u.username) (timed_fits b spec now token) s.users u found
              (text_eq_refl u.username) (v.names_unique u.username))
            (v.names_unique u.username),
        spend_column spec hash token u,
        find?_holds (timed_fits b spec now token) s.users u found,
        count_implied fits (timed_fits b spec later token)
            (set_named u.username (spend spec hash) s).users (λ w e. ground arith),
      )

  -- A token that is one user's at most is spent by a successful call: it names nobody afterwards, at
  -- any time.
  pub consume_timed_token-once :
      (spec : TimedToken) (now later salt : ℕ) (token password : Text) (s : Store)
      → IsValid s
      → (consume_timed_token b spec now salt token password s).0 ≡ ok tt
      → count (λ w. hash_fits b (hash_column spec w) token) s.users ≤ 1
      → verify_timed_token b spec later token
          (consume_timed_token b spec now salt token password s).1
        ≡ none
  consume_timed_token-once spec now later salt token password s v done one =
      let w = used spec now salt token password s done in
      rw w.after (
        verify_absent b spec later token (set_named w.user.username (spend spec w.hash) s) (
          find?_absent (timed_fits b spec later token)
            (set_named w.user.username (spend spec w.hash) s).users
            (spent spec now later token w.hash s w.user v w.found one)))
