-- ===== src/Library/Paging.antt =====
-- The pages of a listing together, and the place of books without a release date.
use my_eink_library.Common.{
  ◌==◌, count, exists, select, length, take, insert_by, sort_by, count-sort_by, count-select, ℕ,
  zero, suc, ◌+◌, ◌-◌, ◌*◌, ◌≤◌, ◌≡◌, refl, sym, ap, ◌∙◌, Bool, true, false, not, ◌&&◌, ◌||◌, List,
  [], ◌∷◌, ◌++◌, map, arith,
}
use my_eink_library.Library.Queries.{
  list_books, drop, sorted_rows, count_books, listed_before, date_missing, by_column, page_or_first,
  size_or_default,
}
use my_eink_library.Library.Filters.{scan_book, SortKey, Book, Filter, where_clause, sort_released}
use my_eink_library.Library.{BookRow, Index, book_has_id}
use my_eink_library.Library.Patch.{effective_published_date, enrichment_row}

take_none : (n : ℕ) → ◌≡◌ {A = List BookRow} [] (take n [])
take_none zero = refl
take_none (suc n) = refl

take_same : (m n : ℕ) (rows : List BookRow) → m ≡ n → take m rows ≡ take n rows
take_same m n rows e = ap (λ k. take k rows) e

take-drop :
    (m k : ℕ) (rows : List BookRow) → take m rows ++ take k (drop m rows) ≡ take (m + k) rows
unfolding drop
take-drop zero k rows = take_same k (0 + k) rows (omega arith)
take-drop (suc m) zero [] = take_none (suc m + zero)
take-drop (suc m) (suc k) [] = take_none (suc m + suc k)
take-drop (suc m) k (r ∷ rows) =
    ap (λ x. r ∷ x) (take-drop m k rows)
    ∙ take_same (suc (m + k)) (suc m + k) (r ∷ rows) (omega arith)

take_all : (n : ℕ) (rows : List BookRow) → length rows ≤ n → take n rows ≡ rows
take_all zero [] h = refl
take_all zero (r ∷ rows) h = absurd (omega (arith, h))
take_all (suc n) [] h = refl
take_all (suc n) (r ∷ rows) h = ap (λ x. r ∷ x) (take_all n rows (omega (arith, h)))

length-count : (rows : List BookRow) → length rows ≡ count (λ r. true) rows
unfolding count
length-count [] = refl
length-count (r ∷ rows) = omega (arith, length-count rows)

map-append : (f : BookRow → Book) (xs ys : List BookRow) → map f (xs ++ ys) ≡ map f xs ++ map f ys
map-append f [] ys = refl
map-append f (x ∷ xs) ys = ap (λ z. f x ∷ z) (map-append f xs ys)

length-map : (f : BookRow → Book) (xs : List BookRow) → length (map f xs) ≡ length xs
length-map f [] = refl
length-map f (x ∷ xs) = ap (λ n. suc n) (length-map f xs)

count-scan_book :
    (d : Index) (id : ℕ) (rows : List BookRow)
    → count (λ r. r.id == id) (map (scan_book d) rows) ≡ count (book_has_id id) rows
unfolding count scan_book
count-scan_book d id [] = refl
count-scan_book d id (r ∷ rows) = ground (arith, count-scan_book d id rows)

page_number : (n : ℕ) → page_or_first (suc n) - 1 ≡ n
page_number n = ground arith

page_size : (n : ℕ) → size_or_default (suc n) ≡ suc n
page_size n = ground arith

list_books-slice :
    (key : SortKey) (descending : Bool) (n size : ℕ) (f : Filter) (d : Index)
    → list_books key descending (suc n) (suc size) f d
      ≡ map (scan_book d) (take (suc size) (drop (n * suc size) (sorted_rows key descending f d)))
unfolding list_books
list_books-slice key descending n size f d =
    ap
      (λ k.
        map (scan_book d)
          (take k (drop ((page_or_first (suc n) - 1) * k) (sorted_rows key descending f d))))
      (page_size size)
    ∙ ap
        (λ k.
          map (scan_book d)
            (take (suc size) (drop (k * suc size) (sorted_rows key descending f d))))
        (page_number n)

-- The first pages of a listing, one behind the other.
unfoldable pub first_pages : SortKey → Bool → ℕ → ℕ → Filter → Index → List Book
unfolding list_books
first_pages key descending zero size f d = []
first_pages key descending (suc n) size f d =
    first_pages key descending n size f d ++ list_books key descending (suc n) size f d

module _ (key : SortKey) (descending : Bool) (f : Filter) (d : Index) where
  length-sorted_rows : length (sorted_rows key descending f d) ≡ count_books f d
  unfolding sorted_rows count_books
  length-sorted_rows =
      length-count (sort_by (listed_before key descending d) (select (where_clause f d) d.books))
      ∙ count-sort_by (listed_before key descending d) (λ r. true)
          (select (where_clause f d) d.books)
      ∙ count-select (λ r. true) (where_clause f d) d.books

  first_pages-take :
      (size n : ℕ)
      → 1 ≤ size
      → first_pages key descending n size f d
        ≡ map (scan_book d) (take (n * size) (sorted_rows key descending f d))
  unfolding first_pages
  first_pages-take zero n h = absurd (omega (arith, h))
  first_pages-take (suc size) zero h =
      ap (map (scan_book d))
        (take_same 0 (0 * suc size) (sorted_rows key descending f d) (omega arith))
  first_pages-take (suc size) (suc n) h =
      let rows = sorted_rows key descending f d in
      ap (λ x. x ++ list_books key descending (suc n) (suc size) f d)
        (first_pages-take (suc size) n h)
      ∙ ap (λ x. map (scan_book d) (take (n * suc size) rows) ++ x)
          (list_books-slice key descending n size f d)
      ∙ sym (
          map-append (scan_book d) (take (n * suc size) rows)
            (take (suc size) (drop (n * suc size) rows)))
      ∙ ap (map (scan_book d)) (take-drop (n * suc size) (suc size) rows)
      ∙ ap (map (scan_book d))
          (take_same (n * suc size + suc size) (suc n * suc size) rows (omega arith))

  -- The pages of a listing, up to one by which Count is reached, hold as many books as Count says, and
  -- each book as often as it matches the filter.
  pub first_pages-count_books :
      (size n id : ℕ)
      → 1 ≤ size
      → count_books f d ≤ n * size
      → (length (first_pages key descending n size f d) ≡ count_books f d)
        × (count (λ r. r.id == id) (first_pages key descending n size f d)
            ≡ count (λ b. book_has_id id b && where_clause f d b) d.books)
  unfolding sorted_rows
  first_pages-count_books size n id h enough =
      let rows = sorted_rows key descending f d in
      let whole : first_pages key descending n size f d ≡ map (scan_book d) rows =
        first_pages-take size n h
        ∙ ap (map (scan_book d))
            (take_all (n * size) rows (omega (arith, length-sorted_rows, enough))) in
      (
        ap length whole ∙ length-map (scan_book d) rows ∙ length-sorted_rows,
        ap (count (λ r. r.id == id)) whole
            ∙ count-scan_book d id rows
            ∙ count-sort_by (listed_before key descending d) (book_has_id id)
                (select (where_clause f d) d.books)
            ∙ count-select (book_has_id id) (where_clause f d) d.books,
      )

-- No row that `late` holds of stands before one that it does not hold of.
unfoldable pub sinks : (BookRow → Bool) → List BookRow → Bool
sinks late [] = true
sinks late (r ∷ rows) = (not (late r) || not (exists (λ x. not (late x)) rows)) && sinks late rows

module _ (late : BookRow → Bool) (before : BookRow → BookRow → Bool)
    (first : (a b : BookRow) → late a ≡ false → late b ≡ true → before a b ≡ true)
    (last : (a b : BookRow) → late a ≡ true → late b ≡ false → before a b ≡ false) where
  early_in :
      (r : BookRow) (rows : List BookRow)
      → exists (λ x. not (late x)) (insert_by before r rows)
        ≡ (not (late r) || exists (λ x. not (late x)) rows)
  unfolding exists insert_by
  early_in r [] = refl
  early_in r (x ∷ rows) = ground (arith, early_in r rows)

  insert_by-sinks :
      (r : BookRow) (rows : List BookRow)
      → sinks late rows ≡ true
      → sinks late (insert_by before r rows) ≡ true
  unfolding sinks insert_by exists
  insert_by-sinks r [] h = ground arith
  insert_by-sinks r (x ∷ rows) h =
      ground (arith, h, early_in r rows, insert_by-sinks r rows, first r x, last r x)

  sort_by-sinks : (rows : List BookRow) → sinks late (sort_by before rows) ≡ true
  unfolding sinks sort_by
  sort_by-sinks [] = refl
  sort_by-sinks (r ∷ rows) = insert_by-sinks r (sort_by before rows) (sort_by-sinks rows)

-- The book shows no release date.
abbrev pub undated : Index → BookRow → Bool
undated d b = date_missing (effective_published_date (enrichment_row b.id d) b)

-- In a listing by release date, whatever its direction, no book without a date stands before one that
-- has a date.
pub sorted_rows-undated :
    (descending : Bool) (f : Filter) (d : Index)
    → sinks (undated d) (sorted_rows sort_released descending f d) ≡ true
unfolding sorted_rows listed_before by_column
sorted_rows-undated descending f d =
    sort_by-sinks (undated d) (listed_before sort_released descending d)
      (λ a b early late. rw (early, late) refl) (λ a b late early. rw (early, late) refl)
      (select (where_clause f d) d.books)
