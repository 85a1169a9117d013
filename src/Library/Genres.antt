-- ===== src/Library/Genres.antt =====
-- joinCSV and splitCSV of internal/index/enrichment.go undo each other.
use my_eink_library.Common.{
  ◌==◌, ==_iff, Bool-cases, All, Text, ℕ, ◌≡◌, refl, sym, ap, ◌∙◌, ◌≢◌, inl, inr, List, [], ◌∷◌,
  ◌++◌, arith,
}
use my_eink_library.Library.Patch.{join_csv, split_csv}
use my_eink_library.Encoding.Split.{Lacks, split}
use my_eink_library.Users.Listing.{or_empty}
use my_eink_library.Users.{null_if_empty}

split_cons : (s : Text) → (p : Text) × (ps : List Text) × (split b',' s ≡ p ∷ ps)
unfolding split
split_cons [] = ([], [], refl)
split_cons (c ∷ s) =
    let (p, ps, e) = split_cons s in
    elim (Bool-cases (c == b',')) [
      | inl sep ↦ ([], p ∷ ps, rw (split, e, sep) refl)
      | inr other ↦ (c ∷ p, ps, rw (split, e, other) refl)
    ]

join_text : (c : ℕ) (p : Text) (ps : List Text) → join_csv ((c ∷ p) ∷ ps) ≡ c ∷ join_csv (p ∷ ps)
unfolding join_csv
join_text c p [] = refl
join_text c p (q ∷ ps) = refl

join_csv-split : (s : Text) → join_csv (split b',' s) ≡ s
unfolding split join_csv
join_csv-split [] = refl
join_csv-split (c ∷ s) =
    let (p, ps, e) = split_cons s in
    let joined_rest : join_csv (p ∷ ps) ≡ s = ap join_csv (sym e) ∙ join_csv-split s in
    elim (Bool-cases (c == b',')) [
      | inl sep ↦ rw (split, e, sep, joined_rest, (==_iff c b',').0 sep) refl
      | inr other ↦ rw (split, e, other, join_text c p ps, joined_rest) refl
    ]

split-Lacks : (p : Text) → Lacks b',' p → split b',' p ≡ p ∷ []
unfolding split
split-Lacks [] _ = refl
split-Lacks (c ∷ p) (hc, hp) = ground (arith, split-Lacks p hp)

split_at : (p rest : Text) → Lacks b',' p → split b',' (p ++ b',' ∷ rest) ≡ p ∷ split b',' rest
unfolding split
split_at [] rest _ = let (q, qs, e) = split_cons rest in rw (split, e) refl
split_at (c ∷ p) rest (hc, hp) = ground (arith, split_at p rest hp)

split-join_csv :
    (g : Text) (gs : List Text)
    → All (Lacks b',') (g ∷ gs)
    → split b',' (join_csv (g ∷ gs)) ≡ g ∷ gs
unfolding join_csv
split-join_csv g [] (hg, _) = split-Lacks g hg
split-join_csv g (h ∷ gs) (hg, hgs) =
    split_at g (join_csv (h ∷ gs)) hg ∙ ap (λ x. g ∷ x) (split-join_csv h gs hgs)

pub null_if_empty-or_empty : (s : Text) → or_empty (null_if_empty s) ≡ s
null_if_empty-or_empty [] = refl
null_if_empty-or_empty (c ∷ s) = refl

split_csv-split : (s : Text) → s ≢ [] → split_csv s ≡ split b',' s
unfolding split_csv
split_csv-split [] h = absurd (h refl)
split_csv-split (c ∷ s) h = refl

-- Genres that the column of the genres gives back.
abbrev pub IsReadable : List Text → Type 0
IsReadable gs = split_csv (or_empty (null_if_empty (join_csv gs))) ≡ gs

-- Genres that a form can give: no genre holds a comma, and the list is not one of a single empty genre.
abbrev pub IsPlain : List Text → Type 0
IsPlain gs = All (Lacks b',') gs × gs ≢ [] ∷ []

join_csv-filled : (g : Text) (gs : List Text) → (g ∷ gs) ≢ [] ∷ [] → join_csv (g ∷ gs) ≢ []
unfolding join_csv
join_csv-filled [] [] h e = h refl
join_csv-filled (c ∷ g) [] h e = cc e
join_csv-filled [] (q ∷ gs) h e = cc e
join_csv-filled (c ∷ g) (q ∷ gs) h e = cc e

pub IsPlain-IsReadable : (gs : List Text) → IsPlain gs → IsReadable gs
unfolding split_csv join_csv
IsPlain-IsReadable [] _ = refl
IsPlain-IsReadable (g ∷ gs) (lacks, filled) =
    ap split_csv (null_if_empty-or_empty (join_csv (g ∷ gs)))
    ∙ split_csv-split (join_csv (g ∷ gs)) (join_csv-filled g gs filled)
    ∙ split-join_csv g gs lacks

join_csv-split_csv : (s : Text) → join_csv (split_csv s) ≡ s
unfolding split_csv join_csv
join_csv-split_csv [] = refl
join_csv-split_csv (c ∷ s) = join_csv-split (c ∷ s)

pub split_csv-IsReadable : (s : Text) → IsReadable (split_csv s)
split_csv-IsReadable s =
    ap split_csv (null_if_empty-or_empty (join_csv (split_csv s)) ∙ join_csv-split_csv s)
