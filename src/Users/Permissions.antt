-- ===== src/Users/Permissions.antt =====
-- internal/users/permissions.go: the registered permissions, the defaults of a role, the effective
-- permission of an enabled user, and the per-user overrides.
use my_eink_library.Common.{
  ◌==◌, if◌then◌else◌, Result, ok, err, find?, exists, update, delete, Text, codes, text_eq, ℕ,
  Bool, false, not, ◌&&◌, ◌||◌, Option, none, some, List, [], ◌∷◌, ◌++◌,
}
use my_eink_library.Users.{
  Role, is_admin, is_user_manager, is_server_manager, valid_role, Permission, manage_users,
  manage_server, own_shelves, manage_shelves, create_public_shelves, bookmark_link,
  other_permission, UserRow, Override, Store, UsersError, invalid_permission, no_rows, has_id,
}

abbrev pub code_of : Permission → ℕ
code_of manage_users = 0
code_of manage_server = 1
code_of own_shelves = 2
code_of manage_shelves = 3
code_of create_public_shelves = 4
code_of bookmark_link = 5
code_of (other_permission s) = 6

-- The text of a permission outside the six.
abbrev pub text_of : Permission → Text
text_of (other_permission s) = s
text_of _ = []

-- == on the type Permission
unfoldable pub permission_eq : Permission → Permission → Bool
unfolding text_eq
permission_eq p q = (code_of p == code_of q) && text_eq (text_of p) (text_of q)

abbrev pub permissions : List (Permission × Text)
permissions =
    (manage_users, codes "Manage users")
    ∷ (manage_server, codes "Manage server")
    ∷ (own_shelves, codes "Own shelves")
    ∷ (manage_shelves, codes "Manage all shelves")
    ∷ (create_public_shelves, codes "Create public shelves")
    ∷ (bookmark_link, codes "Bookmark link")
    ∷ []

valid_in : Permission → List (Permission × Text) → Bool
valid_in permission [] = false
valid_in permission ((p, label) ∷ rest) = permission_eq p permission || valid_in permission rest

unfoldable pub valid_permission : Permission → Bool
unfolding valid_in
valid_permission permission = valid_in permission permissions

unfoldable pub role_has_permission : Role → Permission → Bool
role_has_permission role manage_users = is_admin role || is_user_manager role
role_has_permission role manage_server = is_admin role || is_server_manager role
role_has_permission role own_shelves = valid_role role
role_has_permission role manage_shelves = is_admin role
role_has_permission role create_public_shelves = is_admin role
role_has_permission role bookmark_link = valid_role role
role_has_permission role (other_permission s) = false

-- WHERE user_id = ? AND permission = ?
abbrev pub overrides_for : ℕ → Permission → Override → Bool
overrides_for id permission o = (o.user_id == id) && permission_eq o.permission permission

-- WHERE username = ? AND enabled = 1
abbrev pub enabled_named : Text → UserRow → Bool
enabled_named username u = text_eq u.username username && u.enabled

-- What an override says, and the role where there is none.
abbrev pub decide_by : Option Override → Role → Permission → Bool
decide_by (some o) role permission = o.granted
decide_by none role permission = role_has_permission role permission

unfoldable pub can : Store → Text → Permission → Bool
can s username permission =
    if not (valid_permission permission)
    then false
    else elim (find? (enabled_named username) s.users) [
      | none ↦ false
      | some u ↦ decide_by (find? (overrides_for u.id permission) s.overrides) u.role permission
    ]

-- The field Override of PermissionState: "", "grant" or "revoke".
pub data OverrideState : Type 0 where
  unset grant revoke : OverrideState

pub record PermissionState : Type 0 where
  pub permission : Permission
  pub label : Text
  pub default : Bool
  pub override : OverrideState

abbrev pub override_state : Option Override → OverrideState
override_state none = unset
override_state (some o) = if o.granted then grant else revoke

states_from : Store → ℕ → Role → List (Permission × Text) → List PermissionState
states_from s id role [] = []
states_from s id role ((p, l) ∷ rest) =
    record {
      permission = p;
      label = l;
      default = role_has_permission role p;
      override = override_state (find? (overrides_for id p) s.overrides);
    }
    ∷ states_from s id role rest

unfoldable pub permission_states : Store → ℕ → Result UsersError (List PermissionState)
unfolding states_from
permission_states s id = elim (find? (has_id id) s.users) [
  | none ↦ err no_rows
  | some u ↦ ok (states_from s id u.role permissions)
]

-- INSERT … ON CONFLICT(user_id, permission) DO UPDATE SET granted = excluded.granted
unfoldable pub upsert_override : ℕ → Permission → Bool → List Override → List Override
upsert_override id permission granted rows =
    if exists (overrides_for id permission) rows
    then update (overrides_for id permission) (λ o. record o { granted = granted }) rows
    else rows ++ record { user_id = id; permission = permission; granted = granted } ∷ []

unfoldable pub apply_override : ℕ → Permission → Option Bool → List Override → List Override
apply_override id permission none rows = delete (overrides_for id permission) rows
apply_override id permission (some granted) rows = upsert_override id permission granted rows

-- The first permission of the map that is not registered.
unfoldable pub first_invalid : List (Permission × Option Bool) → Option Permission
first_invalid [] = none
first_invalid ((p, granted) ∷ rest) = if valid_permission p then first_invalid rest else some p

unfoldable pub apply_overrides : ℕ → List (Permission × Option Bool) → List Override → List Override
apply_overrides id [] rows = rows
apply_overrides id ((p, granted) ∷ rest) rows =
    apply_overrides id rest (apply_override id p granted rows)

-- The map is a list in the order in which Go happens to range over it.
unfoldable pub set_permission_overrides :
    ℕ → List (Permission × Option Bool) → Store → Result UsersError (Unit {0}) × Store
set_permission_overrides id overrides s = elim (first_invalid overrides) [
  | some p ↦ (err (invalid_permission p), s)
  | none ↦ (ok tt, record s { overrides = apply_overrides id overrides s.overrides })
]

unfoldable pub set_permission_override :
    ℕ → Permission → Option Bool → Store → Result UsersError (Unit {0}) × Store
unfolding set_permission_overrides
set_permission_override id permission granted =
    set_permission_overrides id ((permission, granted) ∷ [])
