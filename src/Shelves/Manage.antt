-- ===== src/Shelves/Manage.antt =====
-- The methods of internal/index/shelves.go that create, rename, share and delete shelves. A method
-- takes the database last and returns its result beside the new one; a statement that fails or a
-- transaction that is rolled back leaves the database as it was.
use my_eink_library.Common.{
  ltb, leb, ◌==◌, if◌then◌else◌, Result, ok, err, find?, count, exists, update, delete, Text,
  is_empty, trim_space, byte_len, ℕ, ◌+◌, Bool, true, false, not, ◌&&◌, ◌||◌, none, some, List, [],
  ◌∷◌, ◌++◌,
}
use my_eink_library.Shelves.{
  Db, ShelfError, Visibility, ShelfRow, has_slug, visibility_private, owned_by, Shelf, has_name,
  name_taken, name_required, shelf_not_found, is_private, invalid_visibility, create_failed,
  too_many_shelves, name_too_long, is_shared, is_public, no_free_slug, scan_shelf,
}
use my_eink_library.Shelves.Slug.{shelf_slug}

abbrev pub ShelfOutcome : Type 0 → Type 0
ShelfOutcome A = Result ShelfError A × Db

-- An INSERT INTO shelves, with the constraints of the table and of idx_shelves_owner_name.
unfoldable pub insert_shelf : ShelfRow → Db → ShelfOutcome ℕ
insert_shelf row d =
    if exists (has_slug row.username row.slug) d.shelves
      || (not row.is_system && exists (has_name row.username row.name) d.shelves)
    then (err create_failed, d)
    else (
      ok d.next_id,
      record d {
        shelves = d.shelves ++ record row { id = d.next_id } ∷ [];
        next_id = d.next_id + 1;
      },
    )

abbrev pub new_shelf : Text → Text → Text → Bool → ℕ → ShelfRow
new_shelf username slug name is_system now = record {
  id = 0;
  username = username;
  slug = slug;
  name = name;
  is_system = is_system;
  visibility = visibility_private;
  created_at = now;
  last_used_at = 0;
}

unfoldable pub ensure_system_shelf : ℕ → Text → Text → Text → Db → ShelfOutcome ℕ
ensure_system_shelf now username slug name d = elim (find? (has_slug username slug) d.shelves) [
  | some sh ↦ (ok sh.id, d)
  | none ↦ insert_shelf (new_shelf username slug name true now) d
]

-- username = ? AND is_system = 0
abbrev pub personal : Text → ShelfRow → Bool
personal username sh = owned_by username sh && not sh.is_system

-- A limit of 0 stands for every limit that is not positive.
abbrev pub over_limit : ℕ → ℕ → Bool
over_limit limit n = ltb 0 limit && leb limit n

-- CreateShelf behind its checks of the name.
unfoldable pub create_named : (ℕ → ℕ) → ℕ → Text → Text → ℕ → Db → ShelfOutcome Shelf
create_named beyond now username name limit d =
    if over_limit limit (count (personal username) d.shelves)
    then (err (too_many_shelves limit), d)
    else if exists (has_name username name) d.shelves
    then (err name_taken, d)
    else elim (shelf_slug beyond username name d) [
      | none ↦ (err no_free_slug, d)
      | some slug ↦ elim (insert_shelf (new_shelf username slug name false now) d).0 [
        | err e ↦ (err e, d)
        | ok id ↦ (
          ok (scan_shelf (record (new_shelf username slug name false now) { id = id })),
          (insert_shelf (new_shelf username slug name false now) d).1,
        )
      ]
    ]

unfoldable pub create_shelf : (ℕ → ℕ) → ℕ → Text → Text → ℕ → Db → ShelfOutcome Shelf
unfolding create_named
create_shelf beyond now username name limit d =
    if is_empty (trim_space name)
    then (err name_required, d)
    else if ltb 100 (byte_len (trim_space name))
    then (err name_too_long, d)
    else create_named beyond now username (trim_space name) limit d

-- id = ? AND is_system = 0, and username = ? where it is given
abbrev pub manageable : ℕ → Text → ShelfRow → Bool
manageable id username sh =
    (sh.id == id) && (not sh.is_system && (is_empty username || owned_by username sh))

-- A shelf other than those renamed that has the name, which idx_shelves_owner_name refuses.
abbrev pub name_conflict : ℕ → Text → Text → List ShelfRow → Bool
name_conflict id username name shelves = elim (find? (manageable id username) shelves) [
  | none ↦ false
  | some sh ↦ exists (λ w. not (w.id == sh.id) && has_name sh.username name w) shelves
]

unfoldable pub rename_to : ℕ → Text → Text → Db → ShelfOutcome (Unit {0})
rename_to id username name d =
    if name_conflict id username name d.shelves
    then (err name_taken, d)
    else if not (exists (manageable id username) d.shelves)
    then (err shelf_not_found, d)
    else (
      ok tt,
      record d {
        shelves = update (manageable id username) (λ sh. record sh { name = name }) d.shelves;
      },
    )

unfoldable pub rename_shelf_by : ℕ → Text → Text → Db → ShelfOutcome (Unit {0})
unfolding rename_to
rename_shelf_by id username name d =
    if is_empty (trim_space name)
    then (err name_required, d)
    else if ltb 100 (byte_len (trim_space name))
    then (err name_too_long, d)
    else rename_to id username (trim_space name) d

unfoldable pub rename_shelf : Text → ℕ → Text → Db → ShelfOutcome (Unit {0})
unfolding rename_shelf_by
rename_shelf username id name = rename_shelf_by id username name

unfoldable pub rename_shelf_for_manager : ℕ → Text → Db → ShelfOutcome (Unit {0})
unfolding rename_shelf_by
rename_shelf_for_manager id name = rename_shelf_by id [] name

unfoldable pub delete_shelf_by : ℕ → Text → Db → ShelfOutcome (Unit {0})
delete_shelf_by id username d =
    if not (exists (manageable id username) d.shelves) then (err shelf_not_found, d) else (
      ok tt,
      record d {
        shelves = delete (manageable id username) d.shelves;
        shelf_books = delete (λ b. b.shelf_id == id) d.shelf_books;
        shelf_members = delete (λ m. m.shelf_id == id) d.shelf_members;
      },
    )

unfoldable pub delete_shelf : Text → ℕ → Db → ShelfOutcome (Unit {0})
unfolding delete_shelf_by
delete_shelf username id = delete_shelf_by id username

unfoldable pub delete_shelf_for_manager : ℕ → Db → ShelfOutcome (Unit {0})
unfolding delete_shelf_by
delete_shelf_for_manager id = delete_shelf_by id []

abbrev pub valid_visibility : Visibility → Bool
valid_visibility v = is_private v || (is_shared v || is_public v)

unfoldable pub set_shelf_visibility_by : ℕ → Text → Visibility → Db → ShelfOutcome (Unit {0})
set_shelf_visibility_by id username v d =
    if not (valid_visibility v)
    then (err invalid_visibility, d)
    else if not (exists (manageable id username) d.shelves)
    then (err shelf_not_found, d)
    else (
      ok tt,
      record d {
        shelves = update (manageable id username) (λ sh. record sh { visibility = v }) d.shelves;
      },
    )

unfoldable pub set_shelf_visibility : Text → ℕ → Visibility → Db → ShelfOutcome (Unit {0})
unfolding set_shelf_visibility_by
set_shelf_visibility username id = set_shelf_visibility_by id username

unfoldable pub set_shelf_visibility_for_manager : ℕ → Visibility → Db → ShelfOutcome (Unit {0})
unfolding set_shelf_visibility_by
set_shelf_visibility_for_manager id = set_shelf_visibility_by id []
