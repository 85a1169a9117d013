-- ===== src/Provider/Hardcover.antt =====
-- internal/hardcover/search.go: the choice among the results of a search.
use my_eink_library.Common.{
  ltb, leb, ◌==◌, if◌then◌else◌, count, exists, select, delete, length, Text, codes, text_eq,
  is_empty, trim_space, rune_len, byte_len, to_lower, ℕ, ◌+◌, ◌-◌, ◌*◌, Bool, true, false, not,
  ◌&&◌, ◌||◌, Option, none, some, List, [], ◌∷◌, ◌++◌, map,
}
use my_eink_library.Provider.{fields_func, contains}

pub record Match : Type 0 where
  pub id : Text
  pub title : Text
  pub authors : List Text
  pub series : Text
  pub series_index : ℕ
  pub release_date : Text
  pub description : Text
  pub genres : List Text
  pub pages : ℕ
  pub isbns : List Text
  pub rating : ℕ

abbrev pub bundle_keywords : List Text
bundle_keywords =
    codes "box set"
    ∷ codes "boxed set"
    ∷ codes "boxset"
    ∷ codes "bundle"
    ∷ codes "omnibus"
    ∷ codes "collection"
    ∷ codes "trilogy"
    ∷ codes "complete series"
    ∷ codes "books 1-"
    ∷ []

abbrev pub spinoff_keywords : List Text
spinoff_keywords =
    codes "calendar"
    ∷ codes "day-to-day"
    ∷ codes "day to day"
    ∷ codes "quotes from"
    ∷ codes "companion"
    ∷ codes "study guide"
    ∷ codes "coloring book"
    ∷ codes "colouring book"
    ∷ codes "sticker book"
    ∷ codes "journal"
    ∷ codes "planner"
    ∷ codes "cookbook"
    ∷ codes "trivia"
    ∷ codes "workbook"
    ∷ codes "guide to"
    ∷ []

abbrev pub in_range : ℕ → ℕ → ℕ → Bool
in_range lo hi c = leb lo c && leb c hi

abbrev pub is_digit : ℕ → Bool
is_digit c = in_range b'0' b'9' c

-- strings.ReplaceAll(s, "-", "")
unfoldable pub without_dashes : Text → Text
without_dashes s = delete (λ c. c == b'-') s

-- strings.ToUpper
unfoldable pub to_upper : (ℕ → ℕ) → Text → Text
to_upper beyond_upper s =
    map (λ c. if ltb c 128 then (if in_range b'a' b'z' c then c - 32 else c) else beyond_upper c) s

-- The loop over the runes of a text of `len` bytes, the first of which stands at byte `i`.
unfoldable pub isbn_letters : ℕ → ℕ → Text → Bool
isbn_letters len i [] = true
isbn_letters len i (r ∷ s) =
    let rest = isbn_letters len (i + rune_len r) s in
    if is_digit r
    then rest
    else if (len == 10) && ((r == b'X') && (i == len - 1))
    then rest
    else if (len == 10) && in_range b'A' b'Z' r
    then rest
    else false

unfoldable pub looks_like_isbn_or_asin : (ℕ → ℕ) → Text → Bool
unfolding isbn_letters to_upper without_dashes
looks_like_isbn_or_asin beyond_upper s =
    let t = to_upper beyond_upper (without_dashes (trim_space s)) in
    if not (byte_len t == 10) && not (byte_len t == 13)
    then false
    else isbn_letters (byte_len t) 0 t

-- The words of more than two bytes.
abbrev pub long_words : List Text → List Text
long_words words = select (λ w. ltb 2 (byte_len w)) words

abbrev pub parts_title : ℕ → Bool
parts_title c = not (in_range b'a' b'z' c || is_digit c)

abbrev pub parts_name : ℕ → Bool
parts_name c = (c == b' ') || ((c == b',') || (c == b'.'))

unfoldable pub split_name_tokens : Text → List Text
unfolding fields_func
split_name_tokens name = long_words (fields_func parts_name name)

module _ (beyond : ℕ → ℕ) where
  -- The query of Search.
  unfoldable pub search_text : (ℕ → ℕ) → Text → Text → Text → Text
  unfolding looks_like_isbn_or_asin
  search_text beyond_upper title author identifier =
      let q = trim_space (title ++ (b' ' ∷ author)) in
      if looks_like_isbn_or_asin beyond_upper identifier
      then trim_space (q ++ (b' ' ∷ identifier))
      else q

  unfoldable pub looks_like_bundle : Text → Bool
  unfolding contains
  looks_like_bundle title = exists (contains (to_lower beyond title)) bundle_keywords

  unfoldable pub looks_like_spinoff : Text → Bool
  unfolding contains
  looks_like_spinoff title = exists (contains (to_lower beyond title)) spinoff_keywords

  unfoldable pub title_tokens : Text → List Text
  unfolding fields_func
  title_tokens title = long_words (fields_func parts_title (to_lower beyond title))

  -- How many of the known words stand among the words of the candidate.
  unfoldable pub shared_words : List Text → List Text → ℕ
  shared_words known candidate = count (λ t. exists (text_eq t) candidate) known

  -- The ratio of two floats is below 0.5 exactly if twice the one number is below the other.
  unfoldable pub title_implausible : Text → Text → Bool
  unfolding title_tokens shared_words
  title_implausible candidate_title known_title =
      if is_empty (trim_space known_title)
      then false
      else let known = title_tokens (trim_space known_title) in
        if length known == 0
        then false
        else ltb (2 * shared_words known (title_tokens candidate_title)) (length known)

  -- `a` is an author of the candidate, `known` the known one, both in lower case and trimmed.
  abbrev pub author_fits : Text → Text → Bool
  author_fits known a =
      not (is_empty a)
      && (contains a known
          || (contains known a
              || exists (λ t. exists (text_eq t) (split_name_tokens known)) (split_name_tokens a)))

  unfoldable pub author_plausibly_matches : List Text → Text → Bool
  unfolding contains split_name_tokens
  author_plausibly_matches candidate_authors known_author =
      let known = to_lower beyond (trim_space known_author) in
      is_empty known
      || exists (λ a. author_fits known (to_lower beyond (trim_space a))) candidate_authors

  unfoldable pub best_of : Text → Text → List Match → Option Match
  unfolding author_plausibly_matches looks_like_spinoff title_implausible looks_like_bundle
  best_of known_title known_author [] = none
  best_of known_title known_author (m ∷ ms) =
      let rest = best_of known_title known_author ms in
      if not (author_plausibly_matches m.authors known_author)
      then rest
      else if looks_like_spinoff m.title
      then rest
      else if title_implausible m.title known_title
      then rest
      else if looks_like_bundle m.title
      then rest
      else some m

  abbrev pub top_of : List Match → Option Match
  top_of [] = none
  top_of (m ∷ ms) = some m

  unfoldable pub best_confident_match : List Match → Text → Text → Option Match
  unfolding best_of
  best_confident_match matches known_title known_author =
      if is_empty known_author then top_of matches else best_of known_title known_author matches
