-- ===== src/Shelves/Examples.antt =====
-- The theorems on shelves at small tables.
use my_eink_library.Common.{
  is_some, err, find?, count, exists, Text, codes, text_eq, is_space, trim_left, trim_space, ℕ, ◌≡◌,
  refl, inr, true, false, some, List, [], ◌∷◌, arith,
}
use my_eink_library.Shelves.{
  ShelfRow, Db, has_slug, visibility_shared, visibility_private, private_has_no_members, scan_shelf,
}
use my_eink_library.Shelves.Slug.{shelf_slug}
use my_eink_library.Shelves.Visible.{
  get_editable_shelf, get_visible_shelf, scan_access, get_owned_shelf, role_member,
}
use my_eink_library.Shelves.Members.{
  add_shelf_member, sharable_shelf, own_personal_shelf, join_shelf, remove_shelf_member,
}
use my_eink_library.Shelves.Runs.{
  ShelfOperation, op_create_shelf, perform_all, op_rename, perform_all-IsConsistent, op_delete_user,
}
use my_eink_library.Shelves.Consistent.{IsConsistent, with_shelf, with_shelf-IsConsistent}
use my_eink_library.Shelves.FreeSlug.{shelf_slug-found}
use my_eink_library.Shelves.Access.{
  get_visible_shelf_lem, get_editable_shelf_lem, set_shelf_visibility_by-member,
}
use my_eink_library.Shelves.Sharing.{add_shelf_member-IsConsistent}
use my_eink_library.Shelves.Manage.{new_shelf, set_shelf_visibility_by}

abbrev same : ℕ → ℕ
same c = c

abbrev no_shelves : Db
no_shelves = record { shelves = []; shelf_books = []; shelf_members = []; next_id = 1 }

abbrev novels : ShelfRow
novels = record (new_shelf (codes "alice") (codes "novels") (codes "Novels") false 5) {
  id = 1;
  visibility = visibility_shared;
}

-- Alice's shelf, of which Bob is a member.
abbrev shared_with_bob : Db
shared_with_bob = record {
  shelves = novels ∷ [];
  shelf_books = [];
  shelf_members = record { shelf_id = 1; username = codes "bob"; created_at = 6 } ∷ [];
  next_id = 2;
}

no_shelves-IsConsistent : IsConsistent no_shelves
unfolding count exists
no_shelves-IsConsistent = record {
  ids_unique = λ id. omega arith;
  ids_below = λ id h. refl;
  slugs_unique = λ u s. omega arith;
  names_unique = λ u n. omega arith;
  members_hosted = refl;
  members_unique = λ id u. omega arith;
  books_unique = λ s b. omega arith;
}

one_shelf-IsConsistent : IsConsistent (with_shelf novels no_shelves)
unfolding exists
one_shelf-IsConsistent =
    with_shelf-IsConsistent novels no_shelves refl (inr refl) no_shelves-IsConsistent

shared_with_bob-IsConsistent : IsConsistent shared_with_bob
unfolding exists find? add_shelf_member sharable_shelf own_personal_shelf get_owned_shelf join_shelf
    trim_space trim_left is_space text_eq
shared_with_bob-IsConsistent =
    add_shelf_member-IsConsistent 6 (codes "alice") 1 (codes "bob") (with_shelf novels no_shelves)
      one_shelf-IsConsistent

abbrev changes : List ShelfOperation
changes =
    op_create_shelf 7 (codes "alice") (codes "Poems") 3
    ∷ op_rename 1 (codes "alice") (codes "Stories")
    ∷ op_delete_user (codes "bob")
    ∷ []

perform_all-IsConsistent_example : IsConsistent (perform_all same changes shared_with_bob)
perform_all-IsConsistent_example =
    perform_all-IsConsistent same changes shared_with_bob shared_with_bob-IsConsistent

shelf_slug-found_example :
    (slug : Text) × (shelf_slug same (codes "alice") (codes "Novels") shared_with_bob ≡ some slug)
    × (exists (has_slug (codes "alice") slug) shared_with_bob.shelves ≡ false)
shelf_slug-found_example =
    shelf_slug-found same (codes "alice") (codes "Novels") shared_with_bob (omega arith)

-- Bob is a member of the shelf.
get_visible_shelf_lem_example :
    get_visible_shelf (codes "bob") 1 shared_with_bob
    ≡ some (record { shelf = scan_shelf novels; role = role_member })
unfolding find? exists text_eq
get_visible_shelf_lem_example =
    get_visible_shelf_lem (codes "bob") 1 shared_with_bob novels shared_with_bob-IsConsistent refl

get_editable_shelf_lem_example :
    get_editable_shelf (codes "bob") 1 shared_with_bob
    ≡ some (scan_access shared_with_bob (codes "bob") novels)
unfolding find? exists text_eq
get_editable_shelf_lem_example =
    get_editable_shelf_lem (codes "bob") 1 shared_with_bob novels shared_with_bob-IsConsistent refl

set_shelf_visibility_by-member_example :
    (is_some (
        get_editable_shelf
          (codes "bob")
          1
          (set_shelf_visibility_by 1 (codes "alice") visibility_private shared_with_bob).1)
      ≡ true)
    × ((remove_shelf_member
          (codes "alice")
          1
          (codes "bob")
          (set_shelf_visibility_by 1 (codes "alice") visibility_private shared_with_bob).1).0
        ≡ err private_has_no_members)
unfolding find? exists text_eq
set_shelf_visibility_by-member_example =
    set_shelf_visibility_by-member 1 (codes "bob") shared_with_bob novels
      shared_with_bob-IsConsistent refl refl refl
