-- ===== src/Shelves/Members.antt =====
-- The methods of internal/index/shelves.go on the members of shared shelves, and what deleting a user
-- removes.
use my_eink_library.Common.{
  ◌==◌, if◌then◌else◌, Result, ok, err, exists, select, delete, sort_by, Text, text_eq, is_empty,
  trim_space, lower_ascii, ℕ, Bool, not, ◌||◌, none, some, List, [], ◌∷◌, ◌++◌, map,
}
use my_eink_library.Shelves.{
  ShelfRow, Db, ShelfMember, ShelfError, is_membership, owned_by, Shelf, is_private,
  private_has_no_members, shelf_not_found, invalid_member, member_not_found,
}
use my_eink_library.Users.Listing.{text_leb}
use my_eink_library.Shelves.Visible.{owned_with_id, get_owned_shelf}
use my_eink_library.Shelves.Manage.{ShelfOutcome}

-- A shelf of the owner that may have members to list: there, and none of the system's.
unfoldable pub own_personal_shelf : Text → ℕ → Db → Result ShelfError Shelf
own_personal_shelf owner_name id d = elim (get_owned_shelf owner_name id d) [
  | none ↦ err shelf_not_found
  | some sh ↦ if sh.is_system then err shelf_not_found else ok sh
]

-- ORDER BY username COLLATE NOCASE
abbrev pub by_member_name : ShelfMember → ShelfMember → Bool
by_member_name a b = text_leb (lower_ascii a.username) (lower_ascii b.username)

unfoldable pub list_shelf_members_for_manager : ℕ → Db → List Text
list_shelf_members_for_manager id d =
    map (λ m. m.username) (sort_by by_member_name (select (λ m. m.shelf_id == id) d.shelf_members))

unfoldable pub list_shelf_members : Text → ℕ → Db → Result ShelfError (List Text)
unfolding own_personal_shelf list_shelf_members_for_manager
list_shelf_members owner_name id d = elim (own_personal_shelf owner_name id d) [
  | err e ↦ err e
  | ok sh ↦ ok (list_shelf_members_for_manager id d)
]

-- The shelf of both methods below: the owner's, personal, and not private.
unfoldable pub sharable_shelf : Text → ℕ → Db → Result ShelfError Shelf
unfolding own_personal_shelf
sharable_shelf owner_name id d = elim (own_personal_shelf owner_name id d) [
  | err e ↦ err e
  | ok sh ↦ if is_private sh.visibility then err private_has_no_members else ok sh
]

-- INSERT OR IGNORE INTO shelf_members
unfoldable pub join_shelf : ℕ → ℕ → Text → List ShelfMember → List ShelfMember
join_shelf now id name rows =
    if exists (is_membership id name) rows
    then rows
    else rows ++ record { shelf_id = id; username = name; created_at = now } ∷ []

unfoldable pub add_shelf_member : ℕ → Text → ℕ → Text → Db → ShelfOutcome (Unit {0})
unfolding sharable_shelf
add_shelf_member now owner_name id name d =
    if is_empty (trim_space name) || text_eq name owner_name
    then (err invalid_member, d)
    else elim (sharable_shelf owner_name id d) [
      | err e ↦ (err e, d)
      | ok sh ↦ (ok tt, record d { shelf_members = join_shelf now id name d.shelf_members })
    ]

unfoldable pub remove_shelf_member : Text → ℕ → Text → Db → ShelfOutcome (Unit {0})
unfolding sharable_shelf
remove_shelf_member owner_name id name d = elim (sharable_shelf owner_name id d) [
  | err e ↦ (err e, d)
  | ok sh ↦
      if not (exists (is_membership id name) d.shelf_members)
      then (err member_not_found, d)
      else (ok tt, record d { shelf_members = delete (is_membership id name) d.shelf_members })
]

-- shelf_id IN (SELECT id FROM shelves WHERE username = ?)
abbrev pub on_shelf_of : Text → List ShelfRow → ℕ → Bool
on_shelf_of username shelves id = exists (owned_with_id username id) shelves

unfoldable pub delete_user_shelves : Text → Db → Db
delete_user_shelves username d = record d {
  shelves = delete (owned_by username) d.shelves;
  shelf_books = delete (λ b. on_shelf_of username d.shelves b.shelf_id) d.shelf_books;
  shelf_members =
      delete (λ m. on_shelf_of username d.shelves m.shelf_id)
        (delete (λ m. text_eq m.username username) d.shelf_members);
}
