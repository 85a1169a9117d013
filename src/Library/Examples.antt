-- ===== src/Library/Examples.antt =====
-- The theorems on the index of books at small tables.
use my_eink_library.Common.{
  ◌==◌, indicator, ok, err, find?, count, exists, update, length, codes, text_eq, is_empty, ℕ, ◌+◌,
  ◌≡◌, refl, ◌↔◌, true, false, ◌&&◌, ◌||◌, none, some, [], ◌∷◌, arith,
}
use my_eink_library.Library.Prune.{prune_missing, book_unseen, delete_by_path, location_unseen}
use my_eink_library.Library.{book_has_id, Index, BookRow, location_of, EnrichmentRow, no_such_row}
use my_eink_library.Library.Steps.{
  Reachable, after, Reachable-IsSound, here, file_written, file_removed,
}
use my_eink_library.Library.Files.{
  upsert_if_changed, fill_book, insert_file, insert_book, insert_location,
  find_book_by_title_author, normalized, sql_trim, trim_spaces_left,
}
use my_eink_library.Library.Sound.{IsSound}
use my_eink_library.Library.Survival.{book_seen, location_seen}
use my_eink_library.Library.Survival.Twice.{prune_missing_twice}
use my_eink_library.Library.Survival.Pruning.{prune_missing-book}
use my_eink_library.Library.Enrich.{
  apply_enrichment, save_metadata, merge_manual_metadata, merge_provider_metadata,
}
use my_eink_library.Library.Status.{
  needs_enrichment, get_enrichment_stats, set_enrichment_status, get_enrichment_source,
  blank_enrichment,
}
use my_eink_library.Library.Patch.{
  MetadataPatch, enrichment_row, current_enrichment_merged, source_hardcover, merged, done,
  source_manual,
}
use my_eink_library.Library.Enriched.{AllStored}
use my_eink_library.Library.Genres.{IsPlain}
use my_eink_library.Library.Written.{apply_enrichment-merged, save_metadata-merged}
use my_eink_library.Library.Progress.{get_enrichment_stats-pending}
use my_eink_library.Library.Queries.{count_books, sorted_rows}
use my_eink_library.Library.Filters.{
  Filter, matches_author, where_clause, sort_title, hide_match_conds, sort_released,
}
use my_eink_library.Library.Paging.{
  first_pages, sinks, undated, first_pages-count_books, sorted_rows-undated,
}
use my_eink_library.Library.Author.{matches_author_iff}
use my_eink_library.Library.AuthorPatterns.{NamesAuthor}
use my_eink_library.Library.Merge.{
  shares_isbn, merge_duplicate_isbn, pick_canonical, merge_books, wins, rank, root_index,
}
use my_eink_library.Library.Duplicates.{isbn_at, merge_duplicate_isbn-again, merge_books-shelves}
use my_eink_library.Shelves.Contents.{is_placement}
use my_eink_library.Library.Samples.{
  books_root, emma_book, emma_file, emma_path, no_books, no_books-IsSound, no_case, one_book,
  second_root, second_seen, two_copies, two_copies-IsSound, two_copies-books,
}

prune_missing-book_example :
    (exists (book_has_id 1) (prune_missing false 9 second_seen two_copies).books ≡ (
      second_seen emma_book.library_root emma_book.file_path
      || exists (location_of 1) two_copies.book_locations))
    × (exists (book_seen second_seen 1) (prune_missing false 9 second_seen two_copies).books ≡ (
        second_seen emma_book.library_root emma_book.file_path
        || exists (location_seen second_seen 1) two_copies.book_locations))
prune_missing-book_example =
    prune_missing-book false 9 second_seen 1 two_copies emma_book two_copies-IsSound
      two_copies-books

prune_missing_twice_example :
    let f = prune_missing false 9 second_seen (prune_missing false 9 second_seen two_copies) in
    (exists (book_unseen second_seen) f.books ≡ false)
    × (exists (location_unseen second_seen) f.book_locations ≡ false)
prune_missing_twice_example = prune_missing_twice false 9 second_seen two_copies two_copies-IsSound

abbrev prune_events : Reachable no_books (delete_by_path false 9 books_root emma_path one_book)
prune_events =
    after one_book (delete_by_path false 9 books_root emma_path one_book)
      (after no_books one_book here (file_written no_case 7 books_root emma_path emma_file none))
      (file_removed false 9 books_root emma_path)

Reachable-IsSound_example : IsSound (delete_by_path false 9 books_root emma_path one_book)
Reachable-IsSound_example =
    Reachable-IsSound no_books (delete_by_path false 9 books_root emma_path one_book) prune_events
      no_books-IsSound

abbrev corrections : MetadataPatch
corrections = record {
  title = codes "Emma, Volume 1";
  series = [];
  series_index = 0;
  published_date = codes "1815";
  description = [];
  genres = codes "SF" ∷ [];
  publisher = [];
  pages = 474;
  isbn = [];
  rating = 0;
}

corrections-IsPlain : IsPlain corrections.genres
corrections-IsPlain = ((((λ h. omega (arith, h)), ((λ h. omega (arith, h)), tt)), tt), (λ e. cc e))

not_enriched : AllStored (enrichment_row 1 two_copies)
unfolding find? exists update upsert_if_changed insert_file insert_book insert_location fill_book
    find_book_by_title_author normalized sql_trim trim_spaces_left text_eq
not_enriched = tt

save_metadata-merged_example :
    let d' = (save_metadata 9 1 corrections two_copies).1 in
    (current_enrichment_merged 1 d'
      ≡ ok (merge_manual_metadata (merged (enrichment_row 1 two_copies) emma_book) corrections))
    × (get_enrichment_source 1 d' ≡ source_manual)
save_metadata-merged_example =
    save_metadata-merged 9 1 corrections emma_book two_copies two_copies-books not_enriched
      corrections-IsPlain

apply_enrichment-merged_example :
    let d' = (apply_enrichment text_eq 9 1 corrections source_hardcover two_copies).1 in
    (current_enrichment_merged 1 d'
      ≡ ok (
          merge_provider_metadata text_eq
            (merged (enrichment_row 1 two_copies) emma_book)
            corrections))
    × (get_enrichment_source 1 d' ≡ source_hardcover)
apply_enrichment-merged_example =
    apply_enrichment-merged text_eq 9 1 corrections source_hardcover emma_book two_copies
      two_copies-books not_enriched corrections-IsPlain

get_enrichment_stats-pending_example :
    let waiting = indicator (needs_enrichment two_copies emma_book) in
    ((get_enrichment_stats (set_enrichment_status 9 1 done two_copies)).pending + waiting
      ≡ (get_enrichment_stats two_copies).pending)
    × ((get_enrichment_stats (save_metadata 9 1 corrections two_copies).1).pending + waiting
        ≡ (get_enrichment_stats two_copies).pending)
    × ((get_enrichment_stats
            (apply_enrichment text_eq 9 1 corrections source_hardcover two_copies).1).pending
          + waiting
        ≡ (get_enrichment_stats two_copies).pending)
get_enrichment_stats-pending_example =
    get_enrichment_stats-pending text_eq 9 1 done corrections source_hardcover emma_book two_copies
      two_copies-IsSound two_copies-books refl

abbrev everything : Filter
everything = record {
  search = [];
  author = [];
  series = [];
  shelf_id = 0;
  added_after = 0;
  hide_no_chaptarr_match = false;
  hide_no_hardcover_match = false;
}

two_copies-count : count_books everything two_copies ≡ 1
unfolding count_books where_clause hide_match_conds count find? exists update upsert_if_changed
    insert_file insert_book insert_location fill_book find_book_by_title_author normalized sql_trim
    trim_spaces_left text_eq
two_copies-count = refl

first_pages-count_books_example :
    (length (first_pages sort_title false 1 10 everything two_copies)
      ≡ count_books everything two_copies)
    × (count (λ r. r.id == 1) (first_pages sort_title false 1 10 everything two_copies)
        ≡ count (λ b. book_has_id 1 b && where_clause everything two_copies b) two_copies.books)
first_pages-count_books_example =
    first_pages-count_books sort_title false everything two_copies 10 1 1 (omega arith)
      (omega (arith, two_copies-count))

sorted_rows-undated_example :
    sinks (undated two_copies) (sorted_rows sort_released true everything two_copies) ≡ true
sorted_rows-undated_example = sorted_rows-undated true everything two_copies

matches_author_iff_example :
    (matches_author (codes "Jane Austen") (codes "Jane Austen & Seth Grahame-Smith") ≡ true)
    ↔ NamesAuthor (codes "Jane Austen") (codes "Jane Austen & Seth Grahame-Smith")
matches_author_iff_example =
    matches_author_iff (codes "Jane Austen") (codes "Jane Austen & Seth Grahame-Smith")

-- Two books with one ISBN.
abbrev with_isbn : ℕ → EnrichmentRow
with_isbn id = record (blank_enrichment id 7) { isbn = some (codes "9780141439587") }

abbrev other_emma : BookRow
other_emma = record emma_book { id = 2; library_root = second_root }

abbrev same_isbn : Index
same_isbn = record {
  books = emma_book ∷ other_emma ∷ [];
  book_locations = [];
  book_enrichment = with_isbn 1 ∷ with_isbn 2 ∷ [];
  shelf_books = record { shelf_id = 5; book_id = 2; added_at = 3 } ∷ [];
  next_id = 3;
}

same_isbn-other :
    find? (shares_isbn (isbn_at 1 same_isbn) 1) same_isbn.book_enrichment ≡ some (with_isbn 2)
unfolding find? text_eq
same_isbn-other = refl

same_isbn-filled : is_empty (isbn_at 1 same_isbn) ≡ false
unfolding find?
same_isbn-filled = refl

same_isbn-book : find? (book_has_id 2) same_isbn.books ≡ some other_emma
unfolding find? fill_book
same_isbn-book = refl

same_isbn-picked : pick_canonical (books_root ∷ second_root ∷ []) 1 2 same_isbn ≡ ok (1, 2)
unfolding pick_canonical wins rank root_index text_eq find? fill_book
same_isbn-picked = refl

merge_duplicate_isbn-again_example :
    let roots = books_root ∷ second_root ∷ [] in
    let d' = (merge_duplicate_isbn false 9 roots 1 same_isbn).1 in
    ((merge_duplicate_isbn false 9 roots 1 same_isbn).0 ≡ ok tt)
    × (exists (book_has_id 2) d'.books ≡ false)
    × (merge_duplicate_isbn false 10 roots 1 d' ≡ (err no_such_row, d'))
merge_duplicate_isbn-again_example =
    merge_duplicate_isbn-again 9 10 (books_root ∷ second_root ∷ []) 1 (with_isbn 2) other_emma
      same_isbn same_isbn-filled same_isbn-other same_isbn-book same_isbn-picked

merge_books-shelves_example :
    let rows = (merge_books false 9 1 2 same_isbn).shelf_books in
    (exists (is_placement 5 1) rows ≡ (
      exists (is_placement 5 2) same_isbn.shelf_books
      || exists (is_placement 5 1) same_isbn.shelf_books))
    × (exists (is_placement 5 2) rows ≡ false)
    × (exists (is_placement 5 3) rows ≡ exists (is_placement 5 3) same_isbn.shelf_books)
merge_books-shelves_example =
    merge_books-shelves false 9 1 2 5 3 other_emma same_isbn (λ e. omega (arith, e))
      (λ e. omega (arith, e)) (λ e. omega (arith, e)) same_isbn-book
