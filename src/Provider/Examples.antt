-- ===== src/Provider/Examples.antt =====
-- The choices at a search result and a catalog.
use my_eink_library.Common.{
  count, exists, select, codes, text_eq, is_empty, is_space, trim_left, trim_space, byte_len, ℕ,
  ◌≡◌, refl, false, some, [], ◌∷◌,
}
use my_eink_library.Provider.Hardcover.{
  Match, best_confident_match, best_of, author_plausibly_matches, looks_like_spinoff,
  title_implausible, looks_like_bundle, title_tokens, shared_words, split_name_tokens,
}
use my_eink_library.Provider.Closest.{Nearest, match_by_path-Nearest}
use my_eink_library.Provider.Confident.{Chosen, best_confident_match-Chosen}
use my_eink_library.Provider.Paths.{
  CatalogBook, normalize_path, trim_slashes, match_by_path, trim_slashes_left,
}
use my_eink_library.Provider.{fields_func, split_words, has_prefix, contains}

abbrev ascii_only : ℕ → ℕ
ascii_only c = c

abbrev a_calendar : Match
a_calendar = record {
  id = codes "1";
  title = codes "Emma Calendar";
  authors = codes "Jane Austen" ∷ [];
  series = [];
  series_index = 0;
  release_date = [];
  description = [];
  genres = [];
  pages = 0;
  isbns = [];
  rating = 0;
}

abbrev the_book : Match
the_book = record a_calendar { id = codes "2"; title = codes "Emma" }

best_confident_match-Chosen_example :
    Chosen ascii_only (codes "Emma") (codes "Jane Austen") (a_calendar ∷ the_book ∷ []) (
      best_confident_match ascii_only
        (a_calendar ∷ the_book ∷ [])
        (codes "Emma")
        (codes "Jane Austen"))
best_confident_match-Chosen_example =
    best_confident_match-Chosen ascii_only (codes "Emma") (codes "Jane Austen")
      (a_calendar ∷ the_book ∷ []) refl

-- The calendar comes first, and is passed over.
passes_calendar :
    best_confident_match ascii_only
      (a_calendar ∷ the_book ∷ [])
      (codes "Emma")
      (codes "Jane Austen")
    ≡ some the_book
unfolding best_confident_match best_of author_plausibly_matches looks_like_spinoff title_implausible
    looks_like_bundle title_tokens shared_words split_name_tokens fields_func split_words has_prefix
    contains text_eq exists count select trim_space trim_left is_space byte_len
passes_calendar = refl

abbrev in_catalog : CatalogBook
in_catalog = record {
  id = 7;
  title = codes "Emma";
  authors = [];
  series = [];
  series_index = 0;
  genres = [];
  rating = 0;
  hardcover_id = [];
  paths = codes "/mnt/Austen/Emma.epub" ∷ [];
}

given_path : is_empty (normalize_path ascii_only (codes "Austen/Emma.epub")) ≡ false
unfolding normalize_path trim_slashes trim_slashes_left
given_path = refl

match_by_path-Nearest_example :
    Nearest ascii_only
      (normalize_path ascii_only (codes "Austen/Emma.epub"))
      (in_catalog ∷ [])
      (match_by_path ascii_only (in_catalog ∷ []) (codes "Austen/Emma.epub"))
match_by_path-Nearest_example =
    match_by_path-Nearest ascii_only (in_catalog ∷ []) (codes "Austen/Emma.epub") given_path
