-- ===== src/Library/Merge.antt =====
-- internal/index/dedup.go: which of two books survives, and what a merge moves.
use my_eink_library.Common.{
  ltb, leb, ◌==◌, if◌then◌else◌, Result, ok, err, find?, exists, select, update, delete, length,
  sort_by, Text, text_eq, is_empty, ℕ, ◌+◌, Bool, true, false, not, ◌&&◌, Option, none, some, List,
  [], ◌∷◌, ◌++◌, map,
}
use my_eink_library.Library.{
  Index, LocationRow, BookRow, EnrichmentRow, IndexError, location_at, book_has_id, no_such_row,
  location_of, enrichment_of,
}
use my_eink_library.Users.Listing.{text_leb, or_empty}
use my_eink_library.Shelves.{ShelfBook}
use my_eink_library.Shelves.Contents.{is_placement}
use my_eink_library.Users.{email_is}
use my_eink_library.Library.Files.{sql_trim, normalized}

-- Position of a root in LIBRARY_PATH; a root that stands there twice has the later one, and one that
-- does not stand there has the number of roots.
unfoldable pub root_index : Text → List Text → ℕ → Option ℕ
root_index root [] i = none
root_index root (r ∷ roots) i = elim (root_index root roots (i + 1)) [
  | some j ↦ some j
  | none ↦ if text_eq r root then some i else none
]

abbrev pub or_length : List Text → Option ℕ → ℕ
or_length roots none = length roots
or_length roots (some i) = i

unfoldable pub rank : List Text → BookRow → ℕ
unfolding root_index
rank roots b = or_length roots (root_index b.library_root roots 0)

-- Whether the first of two rows is kept.
unfoldable pub wins : List Text → BookRow → BookRow → Bool
unfolding rank
wins roots a b =
    if not (rank roots a == rank roots b)
    then ltb (rank roots a) (rank roots b)
    else if not (a.added_at == b.added_at)
    then ltb a.added_at b.added_at
    else ltb a.id b.id

-- The id to keep and the id to drop.
unfoldable pub pick_canonical : List Text → ℕ → ℕ → Index → Result IndexError (ℕ × ℕ)
unfolding wins
pick_canonical roots id_a id_b d = elim (find? (book_has_id id_a) d.books) [
  | none ↦ err no_such_row
  | some a ↦ elim (find? (book_has_id id_b) d.books) [
    | none ↦ err no_such_row
    | some b ↦ ok (if wins roots a b then (a.id, b.id) else (b.id, a.id))
  ]
]

-- INSERT OR IGNORE INTO book_locations
unfoldable pub add_location : LocationRow → List LocationRow → List LocationRow
add_location l rows =
    if exists (location_at l.library_root l.file_path) rows then rows else rows ++ l ∷ []

-- INSERT OR IGNORE INTO shelf_books, one row after the other
unfoldable pub add_placements : List ShelfBook → List ShelfBook → List ShelfBook
add_placements [] rows = rows
add_placements (p ∷ ps) rows =
    add_placements ps
      (if exists (is_placement p.shelf_id p.book_id) rows then rows else rows ++ p ∷ [])

abbrev pub on_book : ℕ → ShelfBook → Bool
on_book id p = p.book_id == id

abbrev pub moved_to : ℕ → ShelfBook → ShelfBook
moved_to id p = record p { book_id = id }

unfoldable pub move_placements : ℕ → ℕ → List ShelfBook → List ShelfBook
unfolding add_placements
move_placements keep drop rows =
    delete (on_book drop) (add_placements (map (moved_to keep) (select (on_book drop) rows)) rows)

abbrev pub canonical_location : ℕ → ℕ → BookRow → LocationRow
canonical_location now keep b = record {
  book_id = keep;
  library_root = b.library_root;
  file_path = b.file_path;
  file_size = b.file_size;
  file_mtime = b.file_mtime;
  added_at = now;
}

-- `foreign_keys` says whether the connection enforces ON DELETE CASCADE on book_enrichment.
unfoldable pub merge_books : Bool → ℕ → ℕ → ℕ → Index → Index
unfolding add_location move_placements
merge_books foreign_keys now keep drop d =
    if keep == drop then d else elim (find? (book_has_id drop) d.books) [
      | none ↦ d
      | some b ↦ record d {
        books = delete (book_has_id drop) d.books;
        book_locations =
            update (location_of drop) (λ l. record l { book_id = keep })
              (add_location (canonical_location now keep b) d.book_locations);
        book_enrichment =
            if foreign_keys
            then delete (enrichment_of drop) d.book_enrichment
            else d.book_enrichment;
        shelf_books = move_placements keep drop d.shelf_books;
      }
    ]

-- A row of the ordered query: id, LOWER(TRIM(title)) and LOWER(TRIM(author)).
pub record WorkRow : Type 0 where
  pub id : ℕ
  pub title : Text
  pub author : Text

abbrev pub work_of : BookRow → WorkRow
work_of b = record { id = b.id; title = normalized b.title; author = normalized b.author }

-- TRIM(title) != '' AND TRIM(author) != ''
abbrev pub has_work : BookRow → Bool
has_work b = not (is_empty (sql_trim b.title)) && not (is_empty (sql_trim b.author))

-- ORDER BY title, author, id
abbrev pub work_before : WorkRow → WorkRow → Bool
work_before a b =
    if not (text_eq a.title b.title)
    then text_leb a.title b.title
    else if not (text_eq a.author b.author)
    then text_leb a.author b.author
    else leb a.id b.id

abbrev pub same_key : WorkRow → WorkRow → Bool
same_key a b = text_eq a.title b.title && text_eq a.author b.author

unfoldable pub work_rows : Index → List WorkRow
work_rows d = sort_by work_before (map work_of (select has_work d.books))

-- The rows behind the first of a group, whose key is that of `head`; `keep` is the id kept so far.
unfoldable pub merge_groups :
    Bool → ℕ → List Text → WorkRow → ℕ → List WorkRow → Index → Result IndexError (Unit {0}) × Index
unfolding pick_canonical merge_books
merge_groups foreign_keys now roots head keep [] d = (ok tt, d)
merge_groups foreign_keys now roots head keep (r ∷ rows) d = elim (same_key head r) [
  | false ↦ merge_groups foreign_keys now roots r r.id rows d
  | true ↦ elim (pick_canonical roots keep r.id d) [
    | err e ↦ (err e, d)
    | ok (kept, dropped) ↦
        merge_groups foreign_keys now roots head kept rows
          (merge_books foreign_keys now kept dropped d)
  ]
]

unfoldable pub merge_rows :
    Bool → ℕ → List Text → List WorkRow → Index → Result IndexError (Unit {0}) × Index
unfolding merge_groups
merge_rows foreign_keys now roots [] d = (ok tt, d)
merge_rows foreign_keys now roots (r ∷ rows) d = merge_groups foreign_keys now roots r r.id rows d

unfoldable pub consolidate_duplicate_titles :
    Bool → ℕ → List Text → Index → Result IndexError (Unit {0}) × Index
unfolding merge_rows work_rows
consolidate_duplicate_titles foreign_keys now roots d =
    merge_rows foreign_keys now roots (work_rows d) d

-- COALESCE(isbn, '')
abbrev pub isbn_of : Option EnrichmentRow → Text
isbn_of none = []
isbn_of (some e) = or_empty e.isbn

-- isbn = ? AND book_id != ?
abbrev pub shares_isbn : Text → ℕ → EnrichmentRow → Bool
shares_isbn isbn id e = email_is isbn e.isbn && not (e.book_id == id)

unfoldable pub merge_duplicate_isbn :
    Bool → ℕ → List Text → ℕ → Index → Result IndexError (Unit {0}) × Index
unfolding pick_canonical merge_books
merge_duplicate_isbn foreign_keys now roots id d =
    if is_empty (isbn_of (find? (enrichment_of id) d.book_enrichment))
    then (ok tt, d)
    else elim (find? (shares_isbn (isbn_of (find? (enrichment_of id) d.book_enrichment)) id)
        d.book_enrichment) [
          | none ↦ (ok tt, d)
          | some e ↦ elim (pick_canonical roots id e.book_id d) [
            | err x ↦ (err x, d)
            | ok (keep, drop) ↦ (ok tt, merge_books foreign_keys now keep drop d)
          ]
        ]
