-- ===== src/Library/Samples.antt =====
-- Small tables of books.
use my_eink_library.Common.{
  ok, find?, count, exists, update, Text, codes, text_eq, ℕ, ◌≡◌, refl, false, none, some, [],
  arith,
}
use my_eink_library.Library.Prune.{Seen}
use my_eink_library.Library.{book_has_id, Index, BookRow}
use my_eink_library.Library.Files.{
  FileState, Metadata, upsert_if_changed, fill_book, insert_file, blank_book, insert_book,
  insert_location, find_book_by_title_author, normalized, sql_trim, trim_spaces_left,
}
use my_eink_library.Library.Sound.{IsSound}
use my_eink_library.Library.Sound.Scanned.{upsert_if_changed-IsSound}

abbrev pub no_case : ℕ → ℕ
no_case c = c

abbrev pub no_books : Index
no_books = record {
  books = [];
  book_locations = [];
  book_enrichment = [];
  shelf_books = [];
  next_id = 1;
}

abbrev pub emma : Metadata
emma = record {
  title = codes "Emma";
  sort_title = codes "emma";
  author = codes "Jane Austen";
  sort_author = codes "austen, jane";
  series = [];
  series_index = 0;
  description = [];
  language = codes "en";
  publisher = [];
  published_date = [];
  identifier = [];
  cover_data = none;
}

abbrev pub emma_file : FileState
emma_file = record { size = 10; mtime = 5; parsed = ok emma }

abbrev pub books_root : Text
books_root = codes "/b"

abbrev pub second_root : Text
second_root = codes "/c"

abbrev pub emma_path : Text
emma_path = codes "Emma.epub"

-- One book, then a second copy of it under another root.
abbrev pub one_book : Index
one_book = upsert_if_changed no_case 7 books_root emma_path emma_file none false no_books

abbrev pub two_copies : Index
two_copies = upsert_if_changed no_case 8 second_root emma_path emma_file none false one_book

pub no_books-IsSound : IsSound no_books
unfolding count exists
no_books-IsSound = record {
  ids_unique = λ id. omega arith;
  ids_below = λ id h. refl;
  files_unique = λ root path. omega arith;
  locations_owned = refl;
}

pub one_book-IsSound : IsSound one_book
one_book-IsSound =
    upsert_if_changed-IsSound no_case 7 books_root emma_path emma_file none false no_books
      no_books-IsSound

pub two_copies-IsSound : IsSound two_copies
two_copies-IsSound =
    upsert_if_changed-IsSound no_case 8 second_root emma_path emma_file none false one_book
      one_book-IsSound

-- The walk sees the second copy alone.
abbrev pub second_seen : Seen
second_seen root path = text_eq root second_root

abbrev pub emma_book : BookRow
emma_book =
    fill_book no_case 7 books_root emma_path emma_file none (blank_book 1 books_root emma_path 7)

pub two_copies-books : find? (book_has_id 1) two_copies.books ≡ some emma_book
unfolding find? exists update upsert_if_changed insert_file insert_book insert_location fill_book
    find_book_by_title_author normalized sql_trim trim_spaces_left text_eq
two_copies-books = refl
