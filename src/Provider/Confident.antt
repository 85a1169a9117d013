-- ===== src/Provider/Confident.antt =====
-- What the choice of a search result guarantees.
use my_eink_library.Common.{
  leb, Bool-cases, Option-cases, find?, count, exists, select, find?_holds, find?-exists, length,
  Text, is_empty, trim_space, ℕ, ◌*◌, ◌≡◌, refl, sym, inl, inr, Bool, true, false, not, ◌&&◌,
  Option, none, some, List, [], ◌∷◌, arith,
}
use my_eink_library.Provider.Hardcover.{
  best_confident_match, Match, title_implausible, title_tokens, best_of, shared_words,
  author_plausibly_matches, looks_like_spinoff, looks_like_bundle,
}
use my_eink_library.Provider.{fields_func, split_words}
use mathlib.Core.Path.{subst}

module _ (beyond : ℕ → ℕ) (known_title known_author : Text) where
  -- At least half of the long words of the known title stand in the title of the match.
  abbrev pub shares_half : Match → Bool
  shares_half m =
      let known = title_tokens beyond (trim_space known_title) in
      leb (length known) (2 * shared_words beyond known (title_tokens beyond m.title))

  abbrev pub confident : Match → Bool
  confident m =
      author_plausibly_matches beyond m.authors known_author
      && (not (looks_like_spinoff beyond m.title)
          && (shares_half m && not (looks_like_bundle beyond m.title)))

  -- The first match of which the checks hold, if there is one.
  abbrev pub Chosen : List Match → Option Match → Type 0
  Chosen ms none = exists confident ms ≡ false
  Chosen ms (some m) = (confident m ≡ true) × (find? confident ms ≡ some m)

  no_words : title_tokens beyond [] ≡ []
  unfolding title_tokens fields_func split_words select
  no_words = refl

  blank_text : (t : Text) → is_empty t ≡ true → t ≡ []
  blank_text [] h = refl
  blank_text (c ∷ t) h = absurd (cc h)

  implausible_iff : (m : Match) → title_implausible beyond m.title known_title ≡ not (shares_half m)
  unfolding title_implausible shared_words count
  implausible_iff m = elim (Bool-cases (is_empty (trim_space known_title))) [
    | inl blank ↦ rw (title_implausible, blank_text (trim_space known_title) blank, no_words) refl
    | inr given ↦ rw (title_implausible, given) (ground arith)
  ]

  best_of-find? :
      (ms : List Match) → best_of beyond known_title known_author ms ≡ find? confident ms
  unfolding best_of find?
  best_of-find? [] = refl
  best_of-find? (m ∷ ms) = ground (arith, implausible_iff m, best_of-find? ms)

  chosen : (ms : List Match) → Chosen ms (find? confident ms)
  chosen ms = elim (Option-cases (find? confident ms)) [
    | inl missing ↦ subst (Chosen ms) (sym missing) (find?-exists confident ms missing)
    | inr (m, found) ↦ subst (Chosen ms) (sym found) (find?_holds confident ms m found, found)
  ]

  -- For an author that is given, BestConfidentMatch gives the first match whose author fits, whose title
  -- has at least half of the long words of the known title, and which looks neither like a spin-off nor
  -- like a bundle; it gives none only if there is no such match.
  pub best_confident_match-Chosen :
      (ms : List Match)
      → is_empty known_author ≡ false
      → Chosen ms (best_confident_match beyond ms known_title known_author)
  unfolding best_confident_match
  best_confident_match-Chosen ms given =
      rw (best_confident_match, given) (subst (Chosen ms) (sym (best_of-find? ms)) (chosen ms))
