-- ===== src/Library/Filters.antt =====
-- internal/index/queries.go: which books a listing holds, and what is shown of them. A number that may be
-- negative is 0 if it is; floats are given by their bits.
use my_eink_library.Common.{
  leb, ◌==◌, if◌then◌else◌, exists, Text, codes, text_eq, is_empty, ℕ, Bool, false, not, ◌&&◌, ◌||◌,
  Option, none, some, List, [], ◌∷◌, ◌++◌,
}
use my_eink_library.Library.{Index, BookRow, EnrichmentRow}
use my_eink_library.Library.Patch.{
  split_csv, enrichment_row, effective_series, effective_title, effective_series_index, or_none,
  effective_published_date, effective_description, effective_publisher, joined,
}
use my_eink_library.Users.Listing.{or_empty}
use my_eink_library.Library.Like.{escape_like, plain_pattern, like, escaped_pattern}
use my_eink_library.Shelves.Contents.{is_placement}

pub data SortKey : Type 0 where
  sort_title sort_author sort_added sort_series sort_released : SortKey

-- Any other key lists by title.
unfoldable pub sort_key_of : Text → SortKey
sort_key_of key =
    if text_eq key (codes "author")
    then sort_author
    else if text_eq key (codes "added")
    then sort_added
    else if text_eq key (codes "series")
    then sort_series
    else if text_eq key (codes "released")
    then sort_released
    else sort_title

pub record Filter : Type 0 where
  pub search : Text
  pub author : Text
  pub series : Text
  pub shelf_id : ℕ
  pub added_after : ℕ
  pub hide_no_chaptarr_match : Bool
  pub hide_no_hardcover_match : Bool

pub record Book : Type 0 where
  pub id : ℕ
  pub library_root : Text
  pub file_path : Text
  pub file_size : ℕ
  pub file_mtime : ℕ
  pub title : Text
  pub sort_title : Text
  pub author : Text
  pub sort_author : Text
  pub series : Text
  pub series_index : ℕ
  pub description : Text
  pub language : Text
  pub publisher : Text
  pub published_at : Text
  pub identifier : Text
  pub cover_path : Text
  pub has_cover : Bool
  pub added_at : ℕ
  pub updated_at : ℕ
  pub parse_error : Text
  pub genres : List Text
  pub pages : ℕ
  pub isbn : Text
  pub rating : ℕ

unfoldable pub scan_book : Index → BookRow → Book
unfolding split_csv
scan_book d b =
    let e = enrichment_row b.id d in
    record {
      id = b.id;
      library_root = b.library_root;
      file_path = b.file_path;
      file_size = b.file_size;
      file_mtime = b.file_mtime;
      title = effective_title e b;
      sort_title = b.sort_title;
      author = b.author;
      sort_author = b.sort_author;
      series = or_empty (effective_series e b);
      series_index = or_none (effective_series_index e b);
      description = or_empty (effective_description e b);
      language = or_empty b.language;
      publisher = or_empty (effective_publisher e b);
      published_at = or_empty (effective_published_date e b);
      identifier = or_empty b.identifier;
      cover_path = or_empty b.cover_path;
      has_cover = b.has_cover;
      added_at = b.added_at;
      updated_at = b.updated_at;
      parse_error = or_empty b.parse_error;
      genres = split_csv (or_empty (joined (λ r. r.genres) e));
      pages = or_none (joined (λ r. r.pages) e);
      isbn = or_empty (joined (λ r. r.isbn) e);
      rating = or_none (joined (λ r. r.rating) e);
    }

-- column LIKE '%' || s || '%', which is not true of NULL
unfoldable pub contains_like : Text → Option Text → Bool
unfolding plain_pattern like
contains_like s none = false
contains_like s (some t) = like (plain_pattern (b'%' ∷ s ++ b'%' ∷ [])) t

abbrev pub delimiter : Text
delimiter = codes " & "

unfoldable pub matches_author : Text → Text → Bool
unfolding escape_like escaped_pattern like
matches_author name author =
    text_eq author name
    || (like (escaped_pattern (escape_like name ++ (delimiter ++ b'%' ∷ []))) author
        || (like (escaped_pattern (b'%' ∷ delimiter ++ escape_like name)) author
            || like
                (escaped_pattern
                  (b'%' ∷ delimiter ++ (escape_like name ++ (delimiter ++ b'%' ∷ []))))
                author))

-- column = ?, which is not true of NULL
abbrev pub column_is : Text → Option Text → Bool
column_is s none = false
column_is s (some t) = text_eq t s

abbrev pub no_match : Text
no_match = codes "no_match"

-- COALESCE(column, '') of a status of a provider
abbrev pub provider_status : (EnrichmentRow → Text) → Option EnrichmentRow → Text
provider_status column none = []
provider_status column (some e) = column e

unfoldable pub hide_match_conds : Filter → Option EnrichmentRow → Bool
hide_match_conds f e =
    (not f.hide_no_chaptarr_match
      || not (text_eq (provider_status (λ r. r.chaptarr_status) e) no_match))
    && (not f.hide_no_hardcover_match
        || not (text_eq (provider_status (λ r. r.hardcover_status) e) no_match))

unfoldable pub where_clause : Filter → Index → BookRow → Bool
unfolding contains_like matches_author hide_match_conds
where_clause f d b =
    let e = enrichment_row b.id d in
    (is_empty f.search
      || (contains_like f.search (some b.title)
          || (contains_like f.search (some b.author)
              || contains_like f.search (effective_series e b))))
    && ((is_empty f.author || matches_author f.author b.author)
        && ((is_empty f.series || column_is f.series (effective_series e b))
            && ((f.shelf_id == 0 || exists (is_placement f.shelf_id b.id) d.shelf_books)
                && ((f.added_after == 0 || leb f.added_after b.added_at) && hide_match_conds f e))))
