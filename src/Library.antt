-- ===== src/Library.antt =====
-- internal/index: the tables books, book_locations, book_enrichment and shelf_books with the columns
-- of migrations/*.sql. A text column that may be NULL is an `Option`. A REAL column holds the bits
-- of a float64, which is not NaN.
pub mod Files
pub mod Merge
pub mod Prune
pub mod Scan
pub mod Sound
pub mod Steps
pub mod Survival
pub mod Patch
pub mod Status
pub mod Enrich
pub mod Genres
pub mod Enriched
pub mod Written
pub mod Pending
pub mod Progress
pub mod Duplicates
pub mod Like
pub mod Filters
pub mod Queries
pub mod Paging
pub mod Matching
pub mod AuthorPatterns
pub mod Author
pub mod Samples
mod Examples
use my_eink_library.Common.{
  ltb, leb, ◌==◌, if◌then◌else◌, ltb→lt, lt→ltb, leb→le, ==_iff, ==_refl, Bool-cases, Option-cases,
  indicator, is_some, Result-cases, and_left, and_right, Result, ok, err, exists_either,
  exists_of_found, exists-delete_none, exists-update_safe, exists-delete_apart, exists_one,
  exists_counted, exists-update_apart, counted_one, exists_all, count_cong, find?, count, exists,
  select, update, delete, count-append, exists-append, exists-delete, find?_holds, find?-append,
  find?-append_none, find?-exists, exists-find?, update_absent, delete_absent, count-update_keeps,
  count-delete-le, length, take, length-append, length-take-le, All, All-append, All-map, insert_by,
  sort_by, count-sort_by, count-select, find?_absent, count_of_none, count_of_some,
  count_of_not_exists, count_implied, count-update_none, count-delete_none, count-update_one,
  count-delete_one, count_split, count-find?, find?_unique, count-and_one, count-update_lowers,
  count-update_raises, exists_implied, find?-update_found, exists_count, count_exists,
  length-delete, exists-delete_other, exists-update_keeps, exists_cong, exists_thinned,
  exists-delete_kept, exists_none, Text, codes, text_eq, text_eq_refl, text_eq_iff, is_empty,
  is_space, trim_left, trim_space, rune_len, byte_len, ascii_lower, lower_ascii, to_lower, ℕ, zero,
  suc, ◌+◌, ◌-◌, ◌*◌, ◌/◌, ◌%◌, ◌^◌, ◌≤◌, ◌<◌, ◌≡◌, refl, sym, ap, ◌∙◌, ◌≢◌, ◌↔◌, ◌⊎◌, inl, inr,
  Bool, true, false, not, ◌&&◌, ◌||◌, Option, none, some, reverse, List, [], ◌∷◌, ◌++◌, map,
  append-nil, append_assoc, arith,
}
use my_eink_library.Shelves.{ShelfBook}

pub record BookRow : Type 0 where
  pub id : ℕ
  pub library_root : Text
  pub file_path : Text
  pub file_size : ℕ
  pub file_mtime : ℕ
  pub title : Text
  pub sort_title : Text
  pub author : Text
  pub sort_author : Text
  pub series : Option Text
  pub series_index : Option ℕ
  pub description : Option Text
  pub language : Option Text
  pub publisher : Option Text
  pub published_date : Option Text
  pub identifier : Option Text
  pub cover_path : Option Text
  pub has_cover : Bool
  pub added_at : ℕ
  pub updated_at : ℕ
  pub parse_error : Option Text

pub record LocationRow : Type 0 where
  pub book_id : ℕ
  pub library_root : Text
  pub file_path : Text
  pub file_size : ℕ
  pub file_mtime : ℕ
  pub added_at : ℕ

pub record EnrichmentRow : Type 0 where
  pub book_id : ℕ
  pub title : Option Text
  pub series : Option Text
  pub series_index : Option ℕ
  pub published_date : Option Text
  pub description : Option Text
  pub genres : Option Text
  pub publisher : Option Text
  pub pages : Option ℕ
  pub isbn : Option Text
  pub rating : Option ℕ
  pub status : Text
  pub source : Text
  pub chaptarr_status : Text
  pub hardcover_status : Text
  pub updated_at : ℕ

-- `next_id` is what AUTOINCREMENT gives the next book, from 1 on.
pub record Index : Type 0 where
  pub books : List BookRow
  pub book_locations : List LocationRow
  pub book_enrichment : List EnrichmentRow
  pub shelf_books : List ShelfBook
  pub next_id : ℕ

-- sql.ErrNoRows, and the failure of os.Stat
pub data IndexError : Type 0 where
  no_such_row stat_failed : IndexError

-- WHERE id = ?
abbrev pub book_has_id : ℕ → BookRow → Bool
book_has_id id b = b.id == id

-- WHERE library_root = ? AND file_path = ?
abbrev pub book_at : Text → Text → BookRow → Bool
book_at root path b = text_eq b.library_root root && text_eq b.file_path path

abbrev pub location_at : Text → Text → LocationRow → Bool
location_at root path l = text_eq l.library_root root && text_eq l.file_path path

-- WHERE book_id = ?
abbrev pub location_of : ℕ → LocationRow → Bool
location_of id l = l.book_id == id

abbrev pub enrichment_of : ℕ → EnrichmentRow → Bool
enrichment_of id e = e.book_id == id

abbrev pub set_book : ℕ → (BookRow → BookRow) → Index → Index
set_book id f d = record d { books = update (book_has_id id) f d.books }
