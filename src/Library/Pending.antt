-- ===== src/Library/Pending.antt =====
-- The queue of books that wait for enrichment gets shorter by the book whose status is set.
use my_eink_library.Common.{
  ◌==◌, ==_iff, Bool-cases, indicator, counted_one, count_cong, find?, count, exists, update,
  count_split, is_empty, ℕ, ◌+◌, ◌≡◌, refl, inl, inr, false, not, ◌&&◌, some, List, [], ◌∷◌, ◌++◌,
  arith,
}
use my_eink_library.Library.Status.{put_enrichment, status_of, blank_enrichment, needs_enrichment}
use my_eink_library.Library.{EnrichmentRow, enrichment_of, Index, BookRow, book_has_id}
use my_eink_library.Library.Enriched.{KeepsBook, find_put}
use mathlib.Core.Path.{subst}
use my_eink_library.Library.Sound.{IsSound}

-- Rows in which the book has a status, and that give every other book the row that it had.
pub record Marks (id : ℕ) (rows rows' : List EnrichmentRow) : Type 0 where
  pub marked : is_empty (status_of (find? (enrichment_of id) rows')) ≡ false
  pub others :
      (j : ℕ) → (id == j) ≡ false → find? (enrichment_of j) rows' ≡ find? (enrichment_of j) rows

find?-update_other :
    (id j : ℕ) (f : EnrichmentRow → EnrichmentRow) (rows : List EnrichmentRow)
    → KeepsBook f
    → (id == j) ≡ false
    → find? (enrichment_of j) (update (enrichment_of id) f rows) ≡ find? (enrichment_of j) rows
unfolding find? update
find?-update_other id j f [] keeps other = refl
find?-update_other id j f (r ∷ rows) keeps other =
    ground (arith, keeps r, find?-update_other id j f rows keeps other, other)

find?-add_other :
    (j : ℕ) (rows : List EnrichmentRow) (r : EnrichmentRow)
    → (r.book_id == j) ≡ false
    → find? (enrichment_of j) (rows ++ r ∷ []) ≡ find? (enrichment_of j) rows
unfolding find?
find?-add_other j [] r other = rw other refl
find?-add_other j (x ∷ rows) r other = ground (arith, find?-add_other j rows r other)

pub put_enrichment-other :
    (id now j : ℕ) (f : EnrichmentRow → EnrichmentRow) (rows : List EnrichmentRow)
    → KeepsBook f
    → (id == j) ≡ false
    → find? (enrichment_of j) (put_enrichment id now f rows) ≡ find? (enrichment_of j) rows
unfolding put_enrichment
put_enrichment-other id now j f rows keeps other =
    elim (Bool-cases (exists (enrichment_of id) rows)) [
      | inl there ↦ rw (put_enrichment, there) (find?-update_other id j f rows keeps other)
      | inr missing ↦
          rw (put_enrichment, missing)
            (find?-add_other j rows (f (blank_enrichment id now))
              (rw (keeps (blank_enrichment id now)) other))
    ]

pub put_enrichment-Marks :
    (id now : ℕ) (f : EnrichmentRow → EnrichmentRow) (rows : List EnrichmentRow)
    → KeepsBook f
    → ((r : EnrichmentRow) → is_empty (f r).status ≡ false)
    → Marks id rows (put_enrichment id now f rows)
put_enrichment-Marks id now f rows keeps marks =
    let (r, found) = find_put id now f rows keeps in
    record {
      marked = rw found (marks r);
      others = λ j other. put_enrichment-other id now j f rows keeps other;
    }

needs-marked :
    (d d' : Index) (b : BookRow)
    → Marks b.id d.book_enrichment d'.book_enrichment
    → needs_enrichment d' b ≡ false
unfolding needs_enrichment
needs-marked d d' b marks = rw (needs_enrichment, marks.marked) refl

needs-other :
    (id : ℕ) (d d' : Index) (b : BookRow)
    → Marks id d.book_enrichment d'.book_enrichment
    → (id == b.id) ≡ false
    → needs_enrichment d' b ≡ needs_enrichment d b
unfolding needs_enrichment
needs-other id d d' b marks other = rw (needs_enrichment, marks.others b.id other) refl

needs-left :
    (id : ℕ) (d d' : Index) (b : BookRow)
    → Marks id d.book_enrichment d'.book_enrichment
    → needs_enrichment d' b ≡ (needs_enrichment d b && not (book_has_id id b))
needs-left id d d' b marks = elim (Bool-cases (id == b.id)) [
  | inl its ↦
      let e = (==_iff id b.id).0 its in
      let none_needed =
        needs-marked d d' b (subst (λ j. Marks j d.book_enrichment d'.book_enrichment) e marks) in
      ground (arith, its, none_needed)
  | inr other ↦ ground (arith, other, needs-other id d d' b marks other)
]

pub Marks-pending :
    (id : ℕ) (d d' : Index) (b : BookRow)
    → IsSound d
    → find? (book_has_id id) d.books ≡ some b
    → Marks id d.book_enrichment d'.book_enrichment
    → count (needs_enrichment d') d.books + indicator (needs_enrichment d b)
      ≡ count (needs_enrichment d) d.books
Marks-pending id d d' b v found marks = omega (
  arith,
  count_cong (needs_enrichment d') (λ x. needs_enrichment d x && not (book_has_id id x)) d.books
      (λ x. needs-left id d d' x marks),
  count_split (needs_enrichment d) (book_has_id id) d.books,
  count_cong (λ x. needs_enrichment d x && book_has_id id x)
      (λ x. book_has_id id x && needs_enrichment d x) d.books (λ x. ground arith),
  counted_one (book_has_id id) (needs_enrichment d) d.books b found (v.ids_unique id),
)
