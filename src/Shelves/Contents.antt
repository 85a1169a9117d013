-- ===== src/Shelves/Contents.antt =====
-- The books on shelves, of internal/index/shelves.go.
use my_eink_library.Common.{
  ltb, leb, ◌==◌, if◌then◌else◌, is_some, find?, exists, select, update, delete, sort_by, Text, ℕ,
  Bool, ◌&&◌, Option, none, some, List, [], ◌∷◌, ◌++◌, map,
}
use my_eink_library.Shelves.{Db, ShelfRow, ShelfBook, shelf_has_id, Shelf}
use my_eink_library.Shelves.Visible.{shelf_of, editable_by}
use my_eink_library.Shelves.Manage.{personal}

-- shelf_id = ? AND book_id = ?
abbrev pub is_placement : ℕ → ℕ → ShelfBook → Bool
is_placement shelf_id book_id b = (b.shelf_id == shelf_id) && (b.book_id == book_id)

unfoldable pub is_book_on_shelf : ℕ → ℕ → Db → Bool
is_book_on_shelf shelf_id book_id d = exists (is_placement shelf_id book_id) d.shelf_books

-- UPDATE shelves SET last_used_at = ? WHERE id = ?
abbrev pub touch_shelf : ℕ → ℕ → List ShelfRow → List ShelfRow
touch_shelf now shelf_id = update (shelf_has_id shelf_id) (λ sh. record sh { last_used_at = now })

-- The row is inserted OR IGNOREd.
unfoldable pub add_book_to_shelf : ℕ → ℕ → ℕ → Db → Db
add_book_to_shelf now shelf_id book_id d = record d {
  shelves = touch_shelf now shelf_id d.shelves;
  shelf_books =
      if exists (is_placement shelf_id book_id) d.shelf_books
      then d.shelf_books
      else d.shelf_books ++ record { shelf_id = shelf_id; book_id = book_id; added_at = now } ∷ [];
}

unfoldable pub remove_book_from_shelf : ℕ → ℕ → ℕ → Db → Db
remove_book_from_shelf now shelf_id book_id d = record d {
  shelves = touch_shelf now shelf_id d.shelves;
  shelf_books = delete (is_placement shelf_id book_id) d.shelf_books;
}

-- The set of book ids is a list.
unfoldable pub shelf_book_ids : ℕ → Db → List ℕ
shelf_book_ids shelf_id d =
    map (λ b. b.book_id) (select (λ b. b.shelf_id == shelf_id) d.shelf_books)

-- The pairs of the map of maps: a shelf that the user edits and a book of the given ones on it.
unfoldable pub shelf_memberships : Text → List ℕ → Db → List (ℕ × ℕ)
shelf_memberships username book_ids d =
    map (λ b. (b.shelf_id, b.book_id))
      (select
        (λ b.
          exists (λ sh. shelf_has_id b.shelf_id sh && editable_by d username sh) d.shelves
          && exists (λ id. b.book_id == id) book_ids)
        d.shelf_books)

-- The time at which the book was put on the shelf, if it is on it.
abbrev added_of : Option ShelfBook → Option ℕ
added_of none = none
added_of (some b) = some b.added_at

abbrev pub when_added : ℕ → Db → ShelfRow → Option ℕ
when_added book_id d sh = added_of (find? (is_placement sh.id book_id) d.shelf_books)

-- ORDER BY `time` DESC, id DESC
abbrev pub later_first : (ShelfRow → ℕ) → ShelfRow → ShelfRow → Bool
later_first time a b = if time a == time b then leb b.id a.id else ltb (time b) (time a)

abbrev pub or_zero : Option ℕ → ℕ
or_zero none = 0
or_zero (some n) = n

abbrev pub first : List ShelfRow → Option ShelfRow
first [] = none
first (sh ∷ rest) = some sh

abbrev pub or_else : Option ShelfRow → Option ShelfRow → Option ShelfRow
or_else none o = o
or_else (some sh) o = some sh

unfoldable pub shelf_with_book : Text → ℕ → Db → Option ShelfRow
shelf_with_book username book_id d = first (
    sort_by (later_first (λ sh. or_zero (when_added book_id d sh)))
      (select (λ sh. personal username sh && is_some (when_added book_id d sh)) d.shelves))

unfoldable pub last_used_shelf : Text → Db → Option ShelfRow
last_used_shelf username d = first (
    sort_by (later_first (λ sh. sh.last_used_at))
      (select (λ sh. personal username sh && ltb 0 sh.last_used_at) d.shelves))

unfoldable pub recent_shelf : Text → ℕ → Db → Option Shelf
unfolding shelf_with_book last_used_shelf
recent_shelf username book_id d =
    shelf_of (or_else (shelf_with_book username book_id d) (last_used_shelf username d))
