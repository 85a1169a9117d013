-- ===== src/Library/Files.antt =====
-- upsertIfChanged of internal/index/scan.go, and insertLocation and findBookByTitleAuthor of dedup.go:
-- what the index takes over from one file of the library.
use my_eink_library.Common.{
  ◌==◌, if◌then◌else◌, is_some, Result, ok, err, find?, exists, update, Text, text_eq, is_empty,
  lower_ascii, to_lower, ℕ, ◌+◌, Bool, true, false, not, ◌&&◌, ◌||◌, Option, none, some, reverse,
  [], ◌∷◌, ◌++◌,
}
use my_eink_library.Library.{
  BookRow, Index, book_has_id, location_at, book_at, set_book, IndexError, stat_failed,
}
use my_eink_library.Users.{null_if_empty}

-- epub.Metadata; the bytes and the media type of the cover are one text
pub record Metadata : Type 0 where
  pub title : Text
  pub sort_title : Text
  pub author : Text
  pub sort_author : Text
  pub series : Text
  pub series_index : ℕ
  pub description : Text
  pub language : Text
  pub publisher : Text
  pub published_date : Text
  pub identifier : Text
  pub cover_data : Option Text

-- A file as os.Stat and epub.ParseFile find it; a file that does not parse gives its error.
pub record FileState : Type 0 where
  pub size : ℕ
  pub mtime : ℕ
  pub parsed : Result Text Metadata

-- CoverSaver: none for a nil interface, and none for a cover that it fails to save.
abbrev pub CoverSaver : Type 0
CoverSaver = Option (ℕ → Text → Option Text)

unfoldable pub trim_spaces_left : Text → Text
trim_spaces_left [] = []
trim_spaces_left (c ∷ s) = if c == 32 then trim_spaces_left s else c ∷ s

-- TRIM of SQLite removes spaces only.
unfoldable pub sql_trim : Text → Text
unfolding trim_spaces_left
sql_trim s = reverse (trim_spaces_left (reverse (trim_spaces_left s)))

-- LOWER(TRIM(s))
unfoldable pub normalized : Text → Text
unfolding sql_trim
normalized s = lower_ascii (sql_trim s)

abbrev pub same_work : Text → Text → BookRow → Bool
same_work title author b =
    text_eq (normalized b.title) (normalized title)
    && text_eq (normalized b.author) (normalized author)

unfoldable pub find_book_by_title_author : Text → Text → Index → Option ℕ
find_book_by_title_author title author d =
    if is_empty title || is_empty author
    then none
    else elim (find? (same_work title author) d.books) [ none ↦ none | some b ↦ some b.id ]

-- SaveCover of the cover of a file, if there is one and a saver.
abbrev pub saved_cover : CoverSaver → ℕ → Option Text → Option Text
saved_cover none id cover = none
saved_cover (some save) id none = none
saved_cover (some save) id (some cover_bytes) = save id cover_bytes

abbrev pub put_cover : Option Text → BookRow → BookRow
put_cover none b = b
put_cover (some p) b = if b.has_cover then b else record b { cover_path = some p; has_cover = true }

-- The cover is saved only for a book that has none.
unfoldable pub insert_location :
    ℕ → ℕ → Text → Text → FileState → CoverSaver → Option Text → Index → Index
insert_location now book_id root rel_path file saver cover d = record d {
  books = update (book_has_id book_id) (put_cover (saved_cover saver book_id cover)) d.books;
  book_locations =
      d.book_locations
      ++ record {
        book_id = book_id;
        library_root = root;
        file_path = rel_path;
        file_size = file.size;
        file_mtime = file.mtime;
        added_at = now;
      }
        ∷ [];
}

-- filepath.Base of a path in slashes: what stands behind the last one.
unfoldable pub base_name : Text → Text
base_name [] = []
base_name (c ∷ s) =
    let rest = base_name s in
    if exists (λ k. k == b'/') s then rest else if c == b'/' then s else c ∷ s

abbrev pub cover_of : Result Text Metadata → Option Text
cover_of (err e) = none
cover_of (ok meta) = meta.cover_data

-- The columns that are read from the file, on the columns that it keeps.
unfoldable pub fill_book : (ℕ → ℕ) → ℕ → Text → Text → FileState → Option Text → BookRow → BookRow
fill_book beyond now root rel_path file cover_path b = elim file.parsed [
  | err e ↦ record b {
    library_root = root;
    file_size = file.size;
    file_mtime = file.mtime;
    title = base_name rel_path;
    sort_title = to_lower beyond (base_name rel_path);
    author = [];
    sort_author = [];
    series = none;
    series_index = none;
    description = none;
    language = none;
    publisher = none;
    published_date = none;
    identifier = none;
    cover_path = none;
    has_cover = false;
    updated_at = now;
    parse_error = null_if_empty e;
  }
  | ok meta ↦ record b {
    library_root = root;
    file_size = file.size;
    file_mtime = file.mtime;
    title = meta.title;
    sort_title = meta.sort_title;
    author = meta.author;
    sort_author = meta.sort_author;
    series = null_if_empty meta.series;
    series_index = if is_empty meta.series then none else some meta.series_index;
    description = null_if_empty meta.description;
    language = null_if_empty meta.language;
    publisher = null_if_empty meta.publisher;
    published_date = null_if_empty meta.published_date;
    identifier = null_if_empty meta.identifier;
    cover_path = cover_path;
    has_cover = is_some meta.cover_data;
    updated_at = now;
    parse_error = none;
  }
]

abbrev pub blank_book : ℕ → Text → Text → ℕ → BookRow
blank_book id root rel_path now = record {
  id = id;
  library_root = root;
  file_path = rel_path;
  file_size = 0;
  file_mtime = 0;
  title = [];
  sort_title = [];
  author = [];
  sort_author = [];
  series = none;
  series_index = none;
  description = none;
  language = none;
  publisher = none;
  published_date = none;
  identifier = none;
  cover_path = none;
  has_cover = false;
  added_at = now;
  updated_at = now;
  parse_error = none;
}

-- The book that a file that parses is another copy of.
abbrev pub copy_of : Result Text Metadata → Index → Option ℕ
copy_of (err e) d = none
copy_of (ok meta) d = find_book_by_title_author meta.title meta.author d

-- The INSERT, and the cover of the new book.
unfoldable pub insert_book : (ℕ → ℕ) → ℕ → Text → Text → FileState → CoverSaver → Index → Index
unfolding fill_book
insert_book beyond now root rel_path file saver d = record d {
  books =
      d.books
      ++ fill_book beyond now root rel_path file
          (saved_cover saver d.next_id (cover_of file.parsed))
          (blank_book d.next_id root rel_path now)
        ∷ [];
  next_id = d.next_id + 1;
}

-- A file that is neither a location nor a book.
unfoldable pub insert_file : (ℕ → ℕ) → ℕ → Text → Text → FileState → CoverSaver → Index → Index
unfolding insert_book insert_location
insert_file beyond now root rel_path file saver d = elim (copy_of file.parsed d) [
  | some id ↦ insert_location now id root rel_path file saver (cover_of file.parsed) d
  | none ↦ insert_book beyond now root rel_path file saver d
]

-- nullableString of the path of a cover
abbrev pub cover_column : Option Text → Option Text
cover_column none = none
cover_column (some p) = null_if_empty p

-- size and mtime are those of the last scan
abbrev pub unchanged : Bool → FileState → ℕ → ℕ → Bool
unchanged force file size mtime = not force && ((size == file.size) && (mtime == file.mtime))

unfoldable pub upsert_if_changed :
    (ℕ → ℕ) → ℕ → Text → Text → FileState → CoverSaver → Bool → Index → Index
unfolding insert_file
upsert_if_changed beyond now root rel_path file saver force d =
    elim (find? (location_at root rel_path) d.book_locations) [
      | some l ↦ if unchanged force file l.file_size l.file_mtime then d else record d {
        book_locations =
            update (location_at root rel_path)
              (λ k. record k { file_size = file.size; file_mtime = file.mtime }) d.book_locations;
      }
      | none ↦ elim (find? (book_at root rel_path) d.books) [
        | some b ↦
            if unchanged force file b.file_size b.file_mtime
            then d
            else set_book b.id
                (fill_book beyond now root rel_path file
                  (cover_column (saved_cover saver b.id (cover_of file.parsed))))
                d
        | none ↦ insert_file beyond now root rel_path file saver d
      ]
    ]

-- `stat` is what os.Stat finds, none if it fails.
unfoldable pub upsert_path :
    (ℕ → ℕ)
    → ℕ
    → Text
    → Text
    → Option FileState
    → CoverSaver
    → Index
    → Result IndexError (Unit {0}) × Index
unfolding upsert_if_changed
upsert_path beyond now root rel_path stat saver d = elim stat [
  | none ↦ (err stat_failed, d)
  | some file ↦ (ok tt, upsert_if_changed beyond now root rel_path file saver false d)
]
