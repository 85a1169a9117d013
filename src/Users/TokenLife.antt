-- ===== src/Users/TokenLife.antt =====
-- The life of a reset or invite token: it signs its user in until it expires, and once.
use my_eink_library.Common.{
  leb, if◌then◌else◌, ==_refl, Bool-cases, indicator, Result-cases, ok, find?, count, update,
  find?_absent, count_implied, count-update_one, count_split, find?_unique, count-and_one,
  find?-update_found, Text, text_eq_refl, is_empty, ℕ, ◌+◌, ◌≤◌, ◌≡◌, refl, ap, ◌∙◌, inl, inr, Bool,
  true, false, not, ◌&&◌, none, some, List, arith,
}
use my_eink_library.Users.{UserRow, Store, Bcrypt, has_username, has_id}
use my_eink_library.Users.Tokens.{
  TimedToken, reset_token, invite_token, ttl, hash_column, set_token_columns, new_token, hash_fits,
  timed_fits, verify_timed_token, issue_timed_token,
}
use my_eink_library.Users.Invariant.{IsValid}

-- The WHERE clauses that the program issues a token by: id = ? and username = ?.
abbrev pub picks : Bool → UserRow → UserRow → Bool
picks true u = has_id u.id
picks false u = has_username u.username

picks_itself : (by_id : Bool) (u : UserRow) → picks by_id u u ≡ true
picks_itself true u = ==_refl u.id
picks_itself false u = text_eq_refl u.username

picks_one : (by_id : Bool) (s : Store) (u : UserRow) → IsValid s → count (picks by_id u) s.users ≤ 1
picks_one true s u v = v.ids_unique u.id
picks_one false s u v = v.names_unique u.username

abbrev stamped : TimedToken → Text → ℕ → UserRow → UserRow
stamped spec hash at = set_token_columns spec (some hash) (some at)

module _ (b : Bcrypt) where
  -- The rows that a WHERE clause does not take whose token this is.
  abbrev pub fits_other : TimedToken → Text → (UserRow → Bool) → UserRow → Bool
  fits_other spec token which w = hash_fits b (hash_column spec w) token && not (which w)

  fits_stamped :
      (spec : TimedToken) (hash token : Text) (issued now : ℕ) (u : UserRow)
      → u.enabled ≡ true
      → b.compare_hash hash token ≡ true
      → timed_fits b spec now token (stamped spec hash issued u) ≡ leb now (issued + ttl spec)
  fits_stamped reset_token hash token issued now u on fits = ground arith
  fits_stamped invite_token hash token issued now u on fits = ground arith

  stamped_name :
      (spec : TimedToken) (hash : Text) (issued : ℕ) (w : UserRow)
      → (stamped spec hash issued w).username ≡ w.username
  stamped_name reset_token hash issued w = refl
  stamped_name invite_token hash issued w = refl

  picks-stamped :
      (by_id : Bool) (spec : TimedToken) (hash : Text) (issued : ℕ) (u w : UserRow)
      → picks by_id u (stamped spec hash issued w) ≡ picks by_id u w
  picks-stamped true reset_token hash issued u w = refl
  picks-stamped true invite_token hash issued u w = refl
  picks-stamped false reset_token hash issued u w = refl
  picks-stamped false invite_token hash issued u w = refl

  others_none :
      (spec : TimedToken) (now : ℕ) (token : Text) (which : UserRow → Bool) (users : List UserRow)
      → count (fits_other spec token which) users ≡ 0
      → count (λ w. timed_fits b spec now token w && not (which w)) users ≡ 0
  others_none spec now token which users h = omega (
    arith,
    h,
    count_implied (fits_other spec token which)
        (λ w. timed_fits b spec now token w && not (which w)) users (λ w. ground arith),
  )

  count-stamped :
      (by_id : Bool) (spec : TimedToken) (hash token : Text) (issued now : ℕ) (s : Store)
      (u : UserRow)
      → find? (picks by_id u) s.users ≡ some u
      → count (picks by_id u) s.users ≤ 1
      → count (fits_other spec token (picks by_id u)) s.users ≡ 0
      → count
          (timed_fits b spec now token)
          (update (picks by_id u) (stamped spec hash issued) s.users)
        ≤ indicator (timed_fits b spec now token (stamped spec hash issued u))
  count-stamped by_id spec hash token issued now s u found one others = omega (
    arith,
    count-update_one (picks by_id u) (timed_fits b spec now token) (stamped spec hash issued)
        s.users u found one,
    count_split (timed_fits b spec now token) (picks by_id u) s.users,
    count-and_one (picks by_id u) (timed_fits b spec now token) s.users u found one,
    others_none spec now token (picks by_id u) s.users others,
  )

  new_token_made :
      (salt : ℕ) (raw token hash : Text)
      → new_token b salt (some raw) ≡ ok (token, hash)
      → (token ≡ raw) × (b.compare_hash hash raw ≡ true)
  unfolding new_token
  new_token_made salt raw token hash h = ground (arith, b.compare-generate salt raw hash)

  pub verify_found :
      (spec : TimedToken) (now : ℕ) (token : Text) (s : Store) (r : UserRow)
      → is_empty token ≡ false
      → find? (timed_fits b spec now token) s.users ≡ some r
      → verify_timed_token b spec now token s ≡ some r.username
  unfolding verify_timed_token
  verify_found spec now token s r given found = rw (given, found)

  pub verify_absent :
      (spec : TimedToken) (now : ℕ) (token : Text) (s : Store)
      → find? (timed_fits b spec now token) s.users ≡ none
      → verify_timed_token b spec now token s ≡ none
  unfolding verify_timed_token
  verify_absent spec now token s absent = ground (arith, absent)

  verify_stamped :
      (by_id : Bool) (spec : TimedToken) (hash token : Text) (issued now : ℕ) (s : Store)
      (u : UserRow)
      → IsValid s
      → find? (picks by_id u) s.users ≡ some u
      → u.enabled ≡ true
      → is_empty token ≡ false
      → b.compare_hash hash token ≡ true
      → count (fits_other spec token (picks by_id u)) s.users ≡ 0
      → verify_timed_token b spec now token
          (record s { users = update (picks by_id u) (stamped spec hash issued) s.users })
        ≡ (if leb now (issued + ttl spec) then some u.username else none)
  verify_stamped by_id spec hash token issued now s u v found on given fits others =
      let F = fits_stamped spec hash token issued now u on fits in
      let small =
        count-stamped by_id spec hash token issued now s u found (picks_one by_id s u v) others in
      elim (Bool-cases (leb now (issued + ttl spec))) [
        | inl fresh ↦ rw fresh (
            verify_found spec now token _ (stamped spec hash issued u) given (
              find?_unique (timed_fits b spec now token) (picks by_id u) _
                (stamped spec hash issued u)
                (find?-update_found (picks by_id u) (picks by_id u) (stamped spec hash issued)
                  s.users u found (picks_itself by_id u)
                  (λ w. picks-stamped by_id spec hash issued u w))
                (F ∙ fresh) (ground (arith, small)))
            ∙ ap some (stamped_name spec hash issued u))
        | inr stale ↦ rw stale (
            verify_absent spec now token _
              (find?_absent (timed_fits b spec now token) _ (ground (arith, small, F))))
      ]

  -- A token that is not empty and that issueTimedToken returns, by id or by username, for an enabled user
  -- of a valid database, and that is no other user's, names that user up to and including the last second
  -- of its lifetime, and nobody after that.
  pub issue_timed_token-verify :
      (by_id : Bool) (spec : TimedToken) (issued now salt : ℕ) (token : Text) (s : Store)
      (u : UserRow)
      → IsValid s
      → find? (picks by_id u) s.users ≡ some u
      → u.enabled ≡ true
      → is_empty token ≡ false
      → (issue_timed_token b spec issued salt (some token) (picks by_id u) s).0 ≡ ok token
      → count (fits_other spec token (picks by_id u)) s.users ≡ 0
      → verify_timed_token b spec now token
          (issue_timed_token b spec issued salt (some token) (picks by_id u) s).1
        ≡ (if leb now (issued + ttl spec) then some u.username else none)
  unfolding issue_timed_token
  issue_timed_token-verify by_id spec issued now salt token s u v found on given done others =
      elim (Result-cases (new_token b salt (some token))) [
        | inl (e, failed) ↦ absurd (ground (arith, failed))
        | inr ((raw, hash), made) ↦
            rw (made, issue_timed_token)
              (verify_stamped by_id spec hash token issued now s u v found on given
                (new_token_made salt token raw hash made).1 others)
      ]
