-- ===== src/Users/Access.antt =====
-- What overrides, roles and disabled accounts mean for permissions and for the ways in.
use mathlib.Core.Path.{subst}
use my_eink_library.Users.{
  Role, valid_role, Permission, bookmark_link, UserRow, Override, Store, Bcrypt, has_username,
}
use my_eink_library.Users.Permissions.{
  permission_eq, valid_permission, role_has_permission, overrides_for, enabled_named, decide_by,
  can, upsert_override, apply_override, set_permission_override, first_invalid, text_of,
  apply_overrides,
}
use my_eink_library.Users.Tokens.{verify_bookmark_token, bookmark_fits}
use my_eink_library.Users.Invariant.{IsValid, has_invalid_role}
use my_eink_library.Common.{
  ◌==◌, if◌then◌else◌, Bool-cases, Option-cases, find?, exists, update, delete, find?_holds,
  find?-append_none, exists-find?, count_implied, count-find?, find?_unique, Text, text_eq_refl,
  text_eq_iff, ℕ, ◌≡◌, refl, ap, ◌∙◌, ◌↔◌, inl, inr, Bool, true, false, ◌&&◌, Option, none, some,
  List, [], ◌∷◌, ◌++◌, arith,
}

pub find?-update_other :
    {A : Type 0} (p q : A → Bool) (f : A → A) (xs : List A)
    → ((x : A) → p x ≡ true → q x ≡ false)
    → ((x : A) → q (f x) ≡ q x)
    → find? q (update p f xs) ≡ find? q xs
unfolding find? update
find?-update_other p q f [] other keeps = refl
find?-update_other p q f (x ∷ xs) other keeps =
    ground (arith, other x, keeps x, find?-update_other p q f xs other keeps)

find?-delete_other :
    {A : Type 0} (p q : A → Bool) (xs : List A)
    → ((x : A) → p x ≡ true → q x ≡ false)
    → find? q (delete p xs) ≡ find? q xs
unfolding find? delete
find?-delete_other p q [] other = refl
find?-delete_other p q (x ∷ xs) other = ground (arith, other x, find?-delete_other p q xs other)

find?-delete_self : {A : Type 0} (p : A → Bool) (xs : List A) → find? p (delete p xs) ≡ none
unfolding find? delete
find?-delete_self p [] = refl
find?-delete_self p (x ∷ xs) = ground (arith, find?-delete_self p xs)

pub permission_eq_iff : (p q : Permission) → (permission_eq p q ≡ true) ↔ (p ≡ q)
unfolding permission_eq
permission_eq_iff p q =
    ground (arith, text_eq_iff (text_of p) (text_of q), text_eq_refl (text_of p))

pub permission_eq_refl : (p : Permission) → permission_eq p p ≡ true
permission_eq_refl p = (permission_eq_iff p p).1 refl

-- What a stored override says, or nothing.
abbrev granted_of : Option Override → Option Bool
granted_of none = none
granted_of (some o) = some o.granted

granted-update_self :
    (id : ℕ) (p : Permission) (g : Bool) (rows : List Override)
    → exists (overrides_for id p) rows ≡ true
    → granted_of (
        find?
          (overrides_for id p)
          (update (overrides_for id p) (λ o. record o { granted = g }) rows))
      ≡ some g
unfolding find? update exists
granted-update_self id p g [] h = cc
granted-update_self id p g (o ∷ rows) h = ground (arith, granted-update_self id p g rows)

find?-append_other :
    {A : Type 0} (q : A → Bool) (xs : List A) (y : A)
    → q y ≡ false
    → find? q (xs ++ y ∷ []) ≡ find? q xs
unfolding find?
find?-append_other q [] y h = ground arith
find?-append_other q (x ∷ xs) y h = ground (arith, find?-append_other q xs y h)

-- The rows of one user and permission are those that an override changes.
granted-apply_self :
    (id : ℕ) (p : Permission) (g : Option Bool) (rows : List Override)
    → granted_of (find? (overrides_for id p) (apply_override id p g rows)) ≡ g
unfolding apply_override upsert_override
granted-apply_self id p none rows = rw (find?-delete_self (overrides_for id p) rows)
granted-apply_self id p (some g) rows = elim (Bool-cases (exists (overrides_for id p) rows)) [
  | inl old ↦ rw old (granted-update_self id p g rows old)
  | inr new ↦ rw new (
      rw
        (find?-append_none (overrides_for id p) rows
          (record { user_id = id; permission = p; granted = g } ∷ [])
          (exists-find? (overrides_for id p) rows new))
        (unfold find? in ground (arith, permission_eq_refl p)))
]

disjoint :
    (id j : ℕ) (p q : Permission) (o : Override)
    → ((j == id) && permission_eq p q) ≡ false
    → overrides_for id p o ≡ true
    → overrides_for j q o ≡ false
disjoint id j p q o h e = ground (
  arith,
  permission_eq_iff o.permission p,
  permission_eq_iff o.permission q,
  permission_eq_iff p q,
)

granted-apply_other :
    (id j : ℕ) (p q : Permission) (g : Option Bool) (rows : List Override)
    → ((j == id) && permission_eq p q) ≡ false
    → find? (overrides_for j q) (apply_override id p g rows) ≡ find? (overrides_for j q) rows
unfolding apply_override upsert_override
granted-apply_other id j p q none rows h =
    find?-delete_other (overrides_for id p) (overrides_for j q) rows (λ o. disjoint id j p q o h)
granted-apply_other id j p q (some g) rows h =
    elim (Bool-cases (exists (overrides_for id p) rows)) [
      | inl old ↦ rw old (
          find?-update_other (overrides_for id p) (overrides_for j q) _ rows
            (λ o. disjoint id j p q o h) (λ o. refl))
      | inr new ↦ rw new (
          find?-append_other (overrides_for j q) rows
            (record { user_id = id; permission = p; granted = g })
            (disjoint id j p q (record { user_id = id; permission = p; granted = g }) h
              (ground (arith, permission_eq_refl p))))
    ]

-- What an override decides, with the default of the role where it is cleared.
abbrev pub override_or_default : Option Bool → Role → Permission → Bool
override_or_default none role p = role_has_permission role p
override_or_default (some g) role p = g

decide_by_granted :
    (o : Option Override) (role : Role) (p : Permission)
    → decide_by o role p ≡ override_or_default (granted_of o) role p
decide_by_granted none role p = refl
decide_by_granted (some o) role p = refl

set_permission_override-store :
    (id : ℕ) (p : Permission) (g : Option Bool) (s : Store)
    → valid_permission p ≡ true
    → (set_permission_override id p g s).1
      ≡ record s { overrides = apply_override id p g s.overrides }
unfolding set_permission_override first_invalid apply_overrides
set_permission_override-store id p g s good = ground arith

can_at :
    (p : Permission) (g : Option Bool) (s : Store) (u : UserRow)
    → valid_permission p ≡ true
    → find? (enabled_named u.username) s.users ≡ some u
    → can (record s { overrides = apply_override u.id p g s.overrides }) u.username p
      ≡ override_or_default g u.role p
unfolding can
can_at p g s u good found =
    rw (good, found)
      (decide_by_granted (find? (overrides_for u.id p) (apply_override u.id p g s.overrides)) u.role
          p
        ∙ ap (λ o. override_or_default o u.role p) (granted-apply_self u.id p g s.overrides))

can_elsewhere :
    (id : ℕ) (p : Permission) (g : Option Bool) (s : Store) (u : UserRow) (q : Permission)
    → find? (enabled_named u.username) s.users ≡ some u
    → ((u.id == id) && permission_eq p q) ≡ false
    → can (record s { overrides = apply_override id p g s.overrides }) u.username q
      ≡ can s u.username q
unfolding can
can_elsewhere id p g s u q found other =
    ground (arith, found, granted-apply_other id u.id p q g s.overrides other)

-- After a registered permission of a user is granted, revoked or cleared, that user has it as the
-- decision or, if cleared, the role says, as long as the user is enabled; every other permission of
-- every enabled user is as before.
pub can-set_permission_override :
    (id : ℕ) (p : Permission) (g : Option Bool) (s : Store) (u : UserRow) (q : Permission)
    → valid_permission p ≡ true
    → find? (enabled_named u.username) s.users ≡ some u
    → can (set_permission_override id p g s).1 u.username q ≡ (
        if (u.id == id) && permission_eq p q
        then override_or_default g u.role p
        else can s u.username q)
can-set_permission_override id p g s u q good found =
    rw (set_permission_override-store id p g s good)
      (elim (Bool-cases ((u.id == id) && permission_eq p q)) [
        | inr other ↦ rw other (can_elsewhere id p g s u q found other)
        | inl same ↦ rw same (
            cc (
              can_at p g s u good found,
              let ids : u.id ≡ id = ground (arith, same) in ids,
              (permission_eq_iff p q).0 (ground (arith, same)),
            ))
      ])

pub row_of_name :
    (fits : UserRow → Bool) (s : Store) (u : UserRow)
    → IsValid s
    → find? fits s.users ≡ some u
    → u.enabled ≡ true
    → find? (enabled_named u.username) s.users ≡ some u
row_of_name fits s u v found on =
    find?_unique (enabled_named u.username) fits s.users u found (rw (text_eq_refl u.username, on))
      (omega (
        arith,
        v.names_unique u.username,
        count_implied (has_username u.username) (enabled_named u.username) s.users
            (λ w. ground arith),
      ))

row_role_valid :
    (fits : UserRow → Bool) (s : Store) (u : UserRow)
    → IsValid s
    → find? fits s.users ≡ some u
    → valid_role u.role ≡ true
row_role_valid fits s u v found =
    ground (arith, v.roles_valid, count-find? has_invalid_role fits s.users u found)

module _ (b : Bcrypt) where
  signed_in :
      (s : Store) (u : UserRow) (token : Text)
      → IsValid s
      → find? (bookmark_fits b s token) s.users ≡ some u
      → can s u.username bookmark_link ≡ true
  unfolding can valid_permission permission_eq role_has_permission
  signed_in s u token v found = ground (
    arith,
    find?_holds (bookmark_fits b s token) s.users u found,
    row_of_name (bookmark_fits b s token) s u v found,
    row_role_valid (bookmark_fits b s token) s u v found,
  )

  -- A bookmark token of a valid database signs in only users whose effective permission to use
  -- bookmark links holds.
  pub verify_bookmark_token-can :
      (token name : Text) (s : Store)
      → IsValid s
      → verify_bookmark_token b token s ≡ some name
      → can s name bookmark_link ≡ true
  unfolding verify_bookmark_token
  verify_bookmark_token-can token name s v h =
      elim (Option-cases (find? (bookmark_fits b s token) s.users)) [
        | inl absent ↦ ground arith
        | inr (u, found) ↦
            subst (λ n. can s n bookmark_link ≡ true) (ground arith) (signed_in s u token v found)
      ]
