-- ===== src/Users/Listing.antt =====
-- scanUser, UserByID, UserByUsername and List of internal/users/accounts.go: what the rows show.
use my_eink_library.Common.{
  ltb, ◌==◌, if◌then◌else◌, Result, ok, err, find?, Text, ℕ, Bool, true, false, not, ◌&&◌, ◌||◌,
  Option, none, some, List, [], ◌∷◌,
}
use my_eink_library.Users.{
  Role, is_admin, is_user_manager, is_server_manager, bookmark_link, UserRow, Store, UsersError,
  has_id, has_username,
}
use my_eink_library.Users.Permissions.{
  PermissionState, OverrideState, grant, revoke, permission_states, permission_eq,
}
use my_eink_library.Users.Tokens.{is_non_empty}

pub record User : Type 0 where
  pub id : ℕ
  pub username : Text
  pub is_admin : Bool
  pub role : Role
  pub can_manage_users : Bool
  pub can_manage_server : Bool
  pub can_bookmark : Bool
  pub enabled : Bool
  pub email : Text
  pub digest_subscribed : Bool
  pub invite_pending : Bool
  pub permissions : List PermissionState

-- sql.NullString
abbrev pub or_empty : Option Text → Text
or_empty none = []
or_empty (some s) = s

unfoldable pub scan_user : UserRow → User
scan_user u = record {
  id = u.id;
  username = u.username;
  is_admin = is_admin u.role;
  role = u.role;
  can_manage_users = is_admin u.role || is_user_manager u.role;
  can_manage_server = is_admin u.role || is_server_manager u.role;
  can_bookmark = u.can_bookmark;
  enabled = u.enabled;
  email = or_empty u.email;
  digest_subscribed = u.digest_subscribed;
  invite_pending = is_non_empty u.invite_token_hash;
  permissions = [];
}

-- nil where there is no row
unfoldable pub user_by : (UserRow → Bool) → Store → Option User
unfolding scan_user
user_by which s = elim (find? which s.users) [ none ↦ none | some u ↦ some (scan_user u) ]

unfoldable pub user_by_id : ℕ → Store → Option User
unfolding user_by
user_by_id id s = user_by (has_id id) s

unfoldable pub user_by_username : Text → Store → Option User
unfolding user_by
user_by_username username s = user_by (has_username username) s

-- ORDER BY username, by bytes
unfoldable pub text_leb : Text → Text → Bool
text_leb [] t = true
text_leb (c ∷ s) [] = false
text_leb (c ∷ s) (d ∷ t) = let rest = text_leb s t in if c == d then rest else ltb c d

unfoldable pub insert_by_username : UserRow → List UserRow → List UserRow
insert_by_username u [] = u ∷ []
insert_by_username u (w ∷ ws) =
    let later = insert_by_username u ws in
    if text_leb u.username w.username then u ∷ w ∷ ws else w ∷ later

unfoldable pub sort_by_username : List UserRow → List UserRow
sort_by_username [] = []
sort_by_username (u ∷ us) = insert_by_username u (sort_by_username us)

abbrev is_grant : OverrideState → Bool
is_grant grant = true
is_grant _ = false

abbrev is_revoke : OverrideState → Bool
is_revoke revoke = true
is_revoke _ = false

-- The last state of the bookmark permission sets the flag.
unfoldable pub bookmark_flag : List PermissionState → Bool → Bool
bookmark_flag [] flag = flag
bookmark_flag (p ∷ ps) flag = bookmark_flag ps (
    if permission_eq p.permission bookmark_link
    then not (is_revoke p.override) && (is_grant p.override || p.default)
    else flag)

unfoldable pub with_permissions : User → List PermissionState → User
unfolding bookmark_flag
with_permissions u states = record u {
  permissions = states;
  can_bookmark = bookmark_flag states u.can_bookmark;
}

add_permissions : Store → List UserRow → Result UsersError (List User)
add_permissions s [] = ok []
add_permissions s (u ∷ us) = elim (permission_states s u.id) [
  | err e ↦ err e
  | ok states ↦ elim (add_permissions s us) [
    | err e ↦ err e
    | ok rest ↦ ok (with_permissions (scan_user u) states ∷ rest)
  ]
]

unfoldable pub list : Store → Result UsersError (List User)
unfolding add_permissions
list s = add_permissions s (sort_by_username s.users)
