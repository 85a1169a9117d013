-- ===== src/Shelves/Visible.antt =====
-- The queries of internal/index/shelves.go: who sees and who edits which shelf. The key of
-- shelf_members makes its LEFT JOIN on one username give one row for each shelf.
use my_eink_library.Common.{
  ltb, ◌==◌, if◌then◌else◌, find?, exists, select, sort_by, Text, text_eq, lower_ascii, ℕ, Bool,
  true, false, not, ◌&&◌, ◌||◌, Option, none, some, List, map,
}
use my_eink_library.Shelves.{
  Db, ShelfRow, Shelf, is_membership, owned_by, scan_shelf, shelf_has_id, is_public, is_shared,
}
use my_eink_library.Users.Listing.{text_leb}

-- owner, member, reader
pub data AccessRole : Type 0 where
  role_owner role_member role_reader : AccessRole

pub record ShelfAccess : Type 0 where
  pub shelf : Shelf
  pub role : AccessRole

-- sm.username IS NOT NULL
abbrev pub joined_by : Db → Text → ShelfRow → Bool
joined_by d username sh = exists (is_membership sh.id username) d.shelf_members

abbrev pub visible_to : Db → Text → ShelfRow → Bool
visible_to d username sh =
    owned_by username sh || (joined_by d username sh || is_public sh.visibility)

abbrev pub editable_by : Db → Text → ShelfRow → Bool
editable_by d username sh = owned_by username sh || joined_by d username sh

abbrev pub access_role : Db → Text → ShelfRow → AccessRole
access_role d username sh =
    if owned_by username sh
    then role_owner
    else if joined_by d username sh
    then role_member
    else role_reader

abbrev pub scan_access : Db → Text → ShelfRow → ShelfAccess
scan_access d username sh = record { shelf = scan_shelf sh; role = access_role d username sh }

-- is_system DESC
abbrev pub system_rank : ShelfRow → ℕ
system_rank sh = if sh.is_system then 0 else 1

abbrev pub by_system_name : (Text → Text) → ShelfRow → ShelfRow → Bool
by_system_name fold a b =
    if system_rank a == system_rank b
    then text_leb (fold a.name) (fold b.name)
    else ltb (system_rank a) (system_rank b)

abbrev pub visible_rank : Text → ShelfRow → ℕ
visible_rank username sh =
    if owned_by username sh then 0 else if is_shared sh.visibility then 1 else 2

abbrev pub by_rank_system_name : Text → ShelfRow → ShelfRow → Bool
by_rank_system_name username a b =
    if visible_rank username a == visible_rank username b
    then by_system_name lower_ascii a b
    else ltb (visible_rank username a) (visible_rank username b)

abbrev pub by_owner_name : ShelfRow → ShelfRow → Bool
by_owner_name a b =
    if text_eq (lower_ascii a.username) (lower_ascii b.username)
    then text_leb (lower_ascii a.name) (lower_ascii b.name)
    else text_leb (lower_ascii a.username) (lower_ascii b.username)

unfoldable pub list_shelves : Text → Db → List Shelf
list_shelves username d =
    map scan_shelf (sort_by (by_system_name (λ s. s)) (select (owned_by username) d.shelves))

unfoldable pub list_visible_shelves : Text → Db → List ShelfAccess
list_visible_shelves username d =
    map (scan_access d username)
      (sort_by (by_rank_system_name username) (select (visible_to d username) d.shelves))

unfoldable pub list_editable_shelves : Text → Db → List Shelf
list_editable_shelves username d =
    map scan_shelf
      (sort_by (by_system_name lower_ascii) (select (editable_by d username) d.shelves))

unfoldable pub list_user_shelves : Db → List Shelf
list_user_shelves d =
    map scan_shelf (sort_by by_owner_name (select (λ sh. not sh.is_system) d.shelves))

abbrev pub shelf_of : Option ShelfRow → Option Shelf
shelf_of none = none
shelf_of (some sh) = some (scan_shelf sh)

unfoldable pub get_shelf : ℕ → Db → Option Shelf
get_shelf id d = shelf_of (find? (shelf_has_id id) d.shelves)

-- id = ? AND username = ?
abbrev pub owned_with_id : Text → ℕ → ShelfRow → Bool
owned_with_id username id sh = shelf_has_id id sh && owned_by username sh

unfoldable pub get_owned_shelf : Text → ℕ → Db → Option Shelf
get_owned_shelf username id d = shelf_of (find? (owned_with_id username id) d.shelves)

unfoldable pub get_visible_shelf : Text → ℕ → Db → Option ShelfAccess
get_visible_shelf username id d =
    elim (find? (λ sh. shelf_has_id id sh && visible_to d username sh) d.shelves) [
      | none ↦ none
      | some sh ↦ some (scan_access d username sh)
    ]

abbrev pub is_reader : AccessRole → Bool
is_reader role_reader = true
is_reader _ = false

unfoldable pub get_editable_shelf : Text → ℕ → Db → Option ShelfAccess
get_editable_shelf username id d = elim (get_visible_shelf username id d) [
  | none ↦ none
  | some access ↦ if is_reader access.role then none else some access
]
