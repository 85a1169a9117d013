-- ===== src/Library/Prune.antt =====
-- pruneMissing, removeCanonicalFile and DeleteByPath of internal/index/scan.go: files that are gone.
use my_eink_library.Common.{
  leb, if◌then◌else◌, find?, select, update, delete, sort_by, Text, ℕ, Bool, false, not, Option,
  none, some, List, [], ◌∷◌, map,
}
use my_eink_library.Library.{
  BookRow, Index, LocationRow, location_of, book_has_id, book_at, enrichment_of, location_at,
}

-- The set of files that a walk has seen, as a test on root and path.
abbrev pub Seen : Type 0
Seen = Text → Text → Bool

abbrev pub by_added : LocationRow → LocationRow → Bool
by_added a b = leb a.added_at b.added_at

-- ORDER BY added_at ASC
unfoldable pub locations_of : ℕ → Index → List LocationRow
locations_of id d = sort_by by_added (select (location_of id) d.book_locations)

abbrev pub oldest : List LocationRow → Option LocationRow
oldest [] = none
oldest (l ∷ ls) = some l

-- A location that the walk has seen, else the oldest.
unfoldable pub promoted : Seen → List LocationRow → Option LocationRow
promoted seen locs = elim (find? (λ l. seen l.library_root l.file_path) locs) [
  | some l ↦ some l
  | none ↦ oldest locs
]

abbrev pub promote_to : ℕ → LocationRow → BookRow → BookRow
promote_to now l b = record b {
  library_root = l.library_root;
  file_path = l.file_path;
  file_size = l.file_size;
  file_mtime = l.file_mtime;
  updated_at = now;
}

-- A book row that is deleted takes its locations and its enrichment along only under `foreign_keys`.
unfoldable pub delete_book : Bool → ℕ → Index → Index
delete_book foreign_keys id d = record d {
  books = delete (book_has_id id) d.books;
  book_locations =
      if foreign_keys then delete (location_of id) d.book_locations else d.book_locations;
  book_enrichment =
      if foreign_keys then delete (enrichment_of id) d.book_enrichment else d.book_enrichment;
}

unfoldable pub promote : ℕ → ℕ → LocationRow → Index → Index
promote now id l d = record d {
  books = update (book_has_id id) (promote_to now l) d.books;
  book_locations = delete (location_at l.library_root l.file_path) d.book_locations;
}

unfoldable pub remove_canonical_file : Bool → ℕ → Seen → ℕ → Index → Index
unfolding promoted locations_of promote delete_book
remove_canonical_file foreign_keys now seen id d = elim (promoted seen (locations_of id d)) [
  | none ↦ delete_book foreign_keys id d
  | some l ↦ promote now id l d
]

unfoldable pub remove_all : Bool → ℕ → Seen → List ℕ → Index → Index
unfolding remove_canonical_file
remove_all foreign_keys now seen [] d = d
remove_all foreign_keys now seen (id ∷ ids) d =
    remove_all foreign_keys now seen ids (remove_canonical_file foreign_keys now seen id d)

abbrev pub book_unseen : Seen → BookRow → Bool
book_unseen seen b = not (seen b.library_root b.file_path)

abbrev pub location_unseen : Seen → LocationRow → Bool
location_unseen seen l = not (seen l.library_root l.file_path)

unfoldable pub stale_books : Seen → Index → List ℕ
stale_books seen d = map (λ b. b.id) (select (book_unseen seen) d.books)

-- The deletes of the stale locations, one for each, take exactly the stale rows.
unfoldable pub delete_stale_locations : Seen → Index → Index
delete_stale_locations seen d = record d {
  book_locations = delete (location_unseen seen) d.book_locations;
}

unfoldable pub prune_missing : Bool → ℕ → Seen → Index → Index
unfolding remove_all stale_books delete_stale_locations
prune_missing foreign_keys now seen d =
    delete_stale_locations seen (remove_all foreign_keys now seen (stale_books seen d) d)

unfoldable pub delete_by_path : Bool → ℕ → Text → Text → Index → Index
unfolding remove_canonical_file
delete_by_path foreign_keys now root rel_path d = elim (find? (book_at root rel_path) d.books) [
  | none ↦ record d { book_locations = delete (location_at root rel_path) d.book_locations }
  | some b ↦ remove_canonical_file foreign_keys now (λ r p. false) b.id d
]
