-- ===== src/Library/Queries.antt =====
-- internal/index/queries.go: the order and the pages of a listing, and the lists of series and locations.
use my_eink_library.Common.{
  ltb, ◌==◌, if◌then◌else◌, find?, count, exists, select, take, sort_by, Text, text_eq, is_empty, ℕ,
  zero, suc, ◌+◌, ◌-◌, ◌*◌, ◌^◌, Bool, true, false, not, ◌&&◌, Option, none, some, List, [], ◌∷◌,
  map,
}
use my_eink_library.Library.{Index, BookRow, book_has_id, location_of}
use my_eink_library.Library.Patch.{
  enrichment_row, effective_series, effective_series_index, effective_published_date,
}
use my_eink_library.Users.Listing.{or_empty, text_leb}
use my_eink_library.Library.Filters.{
  Book, Filter, SortKey, hide_match_conds, scan_book, sort_added, sort_author, sort_released,
  sort_series, sort_title, where_clause,
}

-- What ORDER BY finds when it compares two rows.
pub data Order : Type 0 where
  less same greater : Order

abbrev pub then_by : Order → Order → Order
then_by less o = less
then_by greater o = greater
then_by same o = o

abbrev pub directed : Bool → Order → Order
directed true less = greater
directed true greater = less
directed _ o = o

abbrev pub by_number : ℕ → ℕ → Order
by_number m n = if m == n then same else if ltb m n then less else greater

abbrev pub by_text : Text → Text → Order
by_text s t = if text_eq s t then same else if text_leb s t then less else greater

-- NULL stands before every value.
abbrev pub by_null {ℓ} : {A : Type ℓ} → (A → A → Order) → Option A → Option A → Order
by_null by none none = same
by_null by none (some b) = less
by_null by (some a) none = greater
by_null by (some a) (some b) = by a b

-- The bits of a float that is not NaN, as a number in the order of the floats.
abbrev pub float_place : ℕ → ℕ
float_place f = if ltb f (2 ^ 63) then 2 ^ 63 + f else 2 ^ 64 - f

abbrev pub by_float : ℕ → ℕ → Order
by_float f g = by_number (float_place f) (float_place g)

abbrev pub by_flag : Bool → Bool → Order
by_flag false true = less
by_flag true false = greater
by_flag _ _ = same

abbrev pub date_missing : Option Text → Bool
date_missing date = is_empty (or_empty date)

-- "col dir": in the order by series the direction stands behind the series index alone.
unfoldable pub by_column : SortKey → Bool → Index → BookRow → BookRow → Order
by_column sort_title descending d a b = directed descending (by_text a.sort_title b.sort_title)
by_column sort_author descending d a b = directed descending (by_text a.sort_author b.sort_author)
by_column sort_added descending d a b = directed descending (by_number a.added_at b.added_at)
by_column sort_series descending d a b =
    let e = enrichment_row a.id d in
    let g = enrichment_row b.id d in
    then_by (by_null by_text (effective_series e a) (effective_series g b)) (
      directed descending
        (by_null by_float (effective_series_index e a) (effective_series_index g b)))
by_column sort_released descending d a b =
    let e = enrichment_row a.id d in
    let g = enrichment_row b.id d in
    then_by
      (by_flag (date_missing (effective_published_date e a))
        (date_missing (effective_published_date g b)))
      (directed descending
        (by_null by_text (effective_published_date e a) (effective_published_date g b)))

abbrev pub may_precede : Order → Bool
may_precede greater = false
may_precede _ = true

unfoldable pub listed_before : SortKey → Bool → Index → BookRow → BookRow → Bool
unfolding by_column
listed_before key descending d a b =
    may_precede (then_by (by_column key descending d a b) (by_number a.id b.id))

unfoldable pub drop : ℕ → List BookRow → List BookRow
drop zero rows = rows
drop (suc n) [] = []
drop (suc n) (r ∷ rows) = drop n rows

abbrev pub page_or_first : ℕ → ℕ
page_or_first page = if ltb page 1 then 1 else page

abbrev pub size_or_default : ℕ → ℕ
size_or_default size = if ltb size 1 then 48 else size

unfoldable pub sorted_rows : SortKey → Bool → Filter → Index → List BookRow
unfolding listed_before where_clause
sorted_rows key descending f d =
    sort_by (listed_before key descending d) (select (where_clause f d) d.books)

unfoldable pub list_books : SortKey → Bool → ℕ → ℕ → Filter → Index → List Book
unfolding sorted_rows scan_book drop
list_books key descending page page_size f d = map (scan_book d) (
    take (size_or_default page_size) (
      drop ((page_or_first page - 1) * size_or_default page_size) (sorted_rows key descending f d)))

unfoldable pub count_books : Filter → Index → ℕ
unfolding where_clause
count_books f d = count (where_clause f d) d.books

unfoldable pub get_book : ℕ → Index → Option Book
unfolding scan_book
get_book id d = elim (find? (book_has_id id) d.books) [
  | none ↦ none
  | some b ↦ some (scan_book d b)
]

pub record NameCount : Type 0 where
  pub name : Text
  pub name_count : ℕ

-- The names of the groups of GROUP BY, each once, in their order.
unfoldable pub insert_name : Text → List Text → List Text
insert_name s [] = s ∷ []
insert_name s (t ∷ ts) =
    let later = insert_name s ts in
    if text_eq s t then t ∷ ts else if text_leb s t then s ∷ t ∷ ts else t ∷ later

unfoldable pub group_names : List Text → List Text
unfolding insert_name
group_names [] = []
group_names (s ∷ ss) = insert_name s (group_names ss)

abbrev pub series_of : Index → BookRow → Text
series_of d b = or_empty (effective_series (enrichment_row b.id d) b)

abbrev pub has_series : Filter → Index → BookRow → Bool
has_series f d b = not (is_empty (series_of d b)) && hide_match_conds f (enrichment_row b.id d)

unfoldable pub list_series : Filter → Index → List NameCount
unfolding group_names hide_match_conds
list_series f d =
    map
      (λ s. record {
        name = s;
        name_count = count (λ b. has_series f d b && text_eq (series_of d b) s) d.books;
      })
      (group_names (map (series_of d) (select (has_series f d) d.books)))

pub record Location : Type 0 where
  pub library_root : Text
  pub file_path : Text

-- What the map holds at an id; it holds nothing at an id that was not asked for.
unfoldable pub locations_for_books : List ℕ → Index → ℕ → List Location
locations_for_books ids d id =
    map (λ l. record { library_root = l.library_root; file_path = l.file_path })
      (select (λ l. location_of id l && exists (λ i. i == l.book_id) ids) d.book_locations)
