-- ===== src/Library/Scan.antt =====
-- Scan and Reimport of internal/index/scan.go, and ClearLibrary, BackfillLibraryRoot and the table
-- meta of db.go. A walk is the list of the entries that filepath.WalkDir visits, in its order.
use my_eink_library.Common.{
  ◌==◌, if◌then◌else◌, Result, ok, err, find?, exists, update, delete, Text, codes, text_eq,
  is_empty, lower_ascii, ℕ, Bool, false, not, ◌&&◌, ◌||◌, Option, none, some, List, [], ◌∷◌, ◌++◌,
  map,
}
use my_eink_library.Library.Files.{CoverSaver, FileState, upsert_if_changed}
use my_eink_library.Library.{Index, IndexError, book_at}
use my_eink_library.Encoding.Decimal.{format_int}
use my_eink_library.Library.Merge.{consolidate_duplicate_titles}
use my_eink_library.Library.Prune.{prune_missing}

-- `info` is none where the file cannot be statted; `walk_error` where WalkDir reports an error.
pub record Entry : Type 0 where
  pub name : Text
  pub rel_path : Text
  pub is_dir : Bool
  pub walk_error : Bool
  pub info : Option FileState

-- filepath.Ext: from the last dot on.
unfoldable pub ext : Text → Text
ext [] = []
ext (c ∷ s) =
    let rest = ext s in if exists (λ k. k == b'.') s then rest else if c == b'.' then c ∷ s else []

-- strings.EqualFold(filepath.Ext(name), ".epub")
unfoldable pub is_epub : Text → Bool
unfolding ext
is_epub name = text_eq (lower_ascii (ext name)) (codes ".epub")

abbrev pub visited : Entry → Bool
visited e = not e.walk_error && (not e.is_dir && is_epub e.name)

abbrev pub in_root : Text → Text → List Entry → Bool
in_root root path entries = exists (λ e. visited e && text_eq e.rel_path path) entries

-- A root and what a walk of it visits.
abbrev pub Walk : Type 0
Walk = Text × List Entry

unfoldable pub seen_by : List Walk → Text → Text → Bool
seen_by [] root path = false
seen_by ((r, entries) ∷ walks) root path =
    (text_eq r root && in_root r path entries) || seen_by walks root path

module _ (beyond : ℕ → ℕ) (saver : CoverSaver) (force : Bool) (foreign_keys : Bool) (now : ℕ) where
  unfoldable pub scan_entry : Text → Entry → Index → Index
  scan_entry root e d = if not (visited e) then d else elim e.info [
    | none ↦ d
    | some file ↦ upsert_if_changed beyond now root e.rel_path file saver force d
  ]

  unfoldable pub scan_root : Text → List Entry → Index → Index
  unfolding scan_entry
  scan_root root [] d = d
  scan_root root (e ∷ entries) d = scan_root root entries (scan_entry root e d)

  unfoldable pub scan_roots : List Walk → Index → Index
  unfolding scan_root
  scan_roots [] d = d
  scan_roots ((root, entries) ∷ walks) d = scan_roots walks (scan_root root entries d)

  -- libraryRoots are the roots of the walks.
  unfoldable pub scan : List Walk → Index → Result IndexError (Unit {0}) × Index
  unfolding scan_roots seen_by
  scan walks d =
      consolidate_duplicate_titles foreign_keys now (map (λ w. w.0) walks)
        (prune_missing foreign_keys now (seen_by walks) (scan_roots walks d))

-- The table meta.
abbrev pub Meta : Type 0
Meta = List (Text × Text)

abbrev pub meta_key : Text → Text × Text → Bool
meta_key key row = text_eq row.0 key

unfoldable pub set_meta : Text → Text → Meta → Meta
set_meta key value rows =
    if exists (meta_key key) rows
    then update (meta_key key) (λ row. (row.0, value)) rows
    else rows ++ (key, value) ∷ []

unfoldable pub get_meta : Text → Meta → Option Text
get_meta key rows = elim (find? (meta_key key) rows) [ none ↦ none | some row ↦ some row.1 ]

abbrev pub last_scan_at : Text
last_scan_at = codes "last_scan_at"

abbrev pub last_scan_duration_ms : Text
last_scan_duration_ms = codes "last_scan_duration_ms"

-- The times of a scan are recorded if it succeeds.
unfoldable pub scan_and_record :
    (ℕ → ℕ)
    → CoverSaver
    → Bool
    → Bool
    → ℕ
    → ℕ
    → List Walk
    → Index
    → Meta
    → Result IndexError (Unit {0}) × Index × Meta
unfolding scan set_meta
scan_and_record beyond saver force foreign_keys now took walks d rows =
    elim (scan beyond saver force foreign_keys now walks d).0 [
      | err e ↦ (err e, (scan beyond saver force foreign_keys now walks d).1, rows)
      | ok _ ↦ (
        ok tt,
        (scan beyond saver force foreign_keys now walks d).1,
        set_meta last_scan_duration_ms (format_int took)
            (set_meta last_scan_at (format_int now) rows),
      )
    ]

-- The cache of the Chaptarr catalog is another table.
unfoldable pub clear_library : Index → Meta → Index × Meta
clear_library d rows = (
  record d { books = []; book_locations = []; book_enrichment = []; shelf_books = [] },
  delete (λ row. meta_key last_scan_at row || meta_key last_scan_duration_ms row) rows,
)

-- An UPDATE that would give two books one file fails as a whole.
unfoldable pub backfill_library_root : Text → Index → Index
backfill_library_root root d =
    if exists (λ b. is_empty b.library_root && exists (book_at root b.file_path) d.books) d.books
    then d
    else record d {
      books = update (λ b. is_empty b.library_root) (λ b. record b { library_root = root }) d.books;
    }
