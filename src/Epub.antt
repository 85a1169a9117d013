-- ===== src/Epub.antt =====
-- internal/epub/opf.go: the metadata of a book from its OPF package document. `beyond` and `beyond_upper`
-- are what strings.ToLower and ToUpper do beyond ASCII, `split_re` is authorSplitRE.Split, and
-- `parse_float` is strconv.ParseFloat, none where it fails, with floats given by their bits.
pub mod Authors
mod Examples
use my_eink_library.Common.{
  ltb, leb, ◌==◌, if◌then◌else◌, ltb→lt, lt→ltb, leb→le, ==_iff, ==_refl, Bool-cases, Option-cases,
  indicator, is_some, Result-cases, and_left, and_right, Result, ok, err, exists_either,
  exists_of_found, exists-delete_none, exists-update_safe, exists-delete_apart, exists_one,
  exists_counted, exists-update_apart, counted_one, exists_all, count_cong, find?, count, exists,
  select, update, delete, count-append, exists-append, exists-delete, find?_holds, find?-append,
  find?-append_none, find?-exists, exists-find?, update_absent, delete_absent, count-update_keeps,
  count-delete-le, length, take, length-append, length-take-le, All, All-append, All-map, insert_by,
  sort_by, count-sort_by, count-select, find?_absent, count_of_none, count_of_some,
  count_of_not_exists, count_implied, count-update_none, count-delete_none, count-update_one,
  count-delete_one, count_split, count-find?, find?_unique, count-and_one, count-update_lowers,
  count-update_raises, exists_implied, find?-update_found, exists_count, count_exists,
  length-delete, exists-delete_other, exists-update_keeps, exists_cong, exists_thinned,
  exists-delete_kept, exists_none, Text, codes, text_eq, text_eq_refl, text_eq_iff, is_empty,
  is_space, trim_left, trim_space, rune_len, byte_len, ascii_lower, lower_ascii, to_lower, ℕ, zero,
  suc, ◌+◌, ◌-◌, ◌*◌, ◌/◌, ◌%◌, ◌^◌, ◌≤◌, ◌<◌, ◌≡◌, refl, sym, ap, ◌∙◌, ◌≢◌, ◌↔◌, ◌⊎◌, inl, inr,
  Bool, true, false, not, ◌&&◌, ◌||◌, Option, none, some, reverse, List, [], ◌∷◌, ◌++◌, map,
  append-nil, append_assoc, arith,
}
use my_eink_library.Provider.Hardcover.{to_upper}
use my_eink_library.Library.Files.{Metadata}
use my_eink_library.Provider.{fields_func, has_prefix}
use my_eink_library.Encoding.Split.{split_n}

pub record OpfIdentifier : Type 0 where
  pub scheme : Text
  pub value : Text

pub record OpfMeta : Type 0 where
  pub name : Text
  pub content : Text
  pub property : Text
  pub value : Text

pub record OpfMetadata : Type 0 where
  pub title : List Text
  pub creator : List Text
  pub identifier : List OpfIdentifier
  pub language : List Text
  pub publisher : List Text
  pub date : List Text
  pub description : List Text
  pub meta : List OpfMeta

-- strings.Join
unfoldable pub join_with : Text → List Text → Text
join_with sep [] = []
join_with sep (s ∷ []) = s
join_with sep (s ∷ t ∷ items) = s ++ (sep ++ join_with sep (t ∷ items))

unfoldable pub meta_value : List OpfMeta → Text → Text
meta_value [] name = []
meta_value (m ∷ meta) name = if text_eq m.name name then m.content else meta_value meta name

-- strings.TrimSpace of the first of the elements, if there is one.
abbrev pub first_trimmed : List Text → Text
first_trimmed [] = []
first_trimmed (s ∷ ss) = trim_space s

-- The two parts of a name with one comma.
abbrev pub turned : Text → List Text → Text
turned name (last ∷ first ∷ []) =
    if not (is_empty (trim_space last)) && not (is_empty (trim_space first))
    then trim_space first ++ (b' ' ∷ trim_space last)
    else name
turned name _ = name

-- strings.Join(strings.Fields(name), " ")
abbrev pub collapsed : Text → Text
collapsed name = join_with (b' ' ∷ []) (fields_func is_space name)

unfoldable pub normalize_author_name : Text → Text
unfolding join_with fields_func split_n
normalize_author_name name =
    if count (λ c. c == b',') (collapsed name) == 1
    then turned (collapsed name) (split_n b',' 2 (collapsed name))
    else collapsed name

-- The last of some words, and the words before it.
unfoldable pub last_of : Text → List Text → Text
last_of w [] = w
last_of w (v ∷ ws) = last_of v ws

unfoldable pub all_but_last : Text → List Text → List Text
all_but_last w [] = []
all_but_last w (v ∷ ws) = w ∷ all_but_last v ws

module _ (beyond : ℕ → ℕ) where
  abbrev pub sort_parts : Text → List Text → Text
  sort_parts name [] = to_lower beyond name
  sort_parts name (w ∷ []) = to_lower beyond name
  sort_parts name (w ∷ v ∷ ws) =
      to_lower beyond
        (last_of v ws ++ (codes ", " ++ join_with (b' ' ∷ []) (all_but_last w (v ∷ ws))))

  unfoldable pub sort_author_name : Text → Text
  unfolding join_with last_of all_but_last fields_func
  sort_author_name name =
      if exists (λ c. c == b',') (trim_space name)
      then to_lower beyond (trim_space name)
      else sort_parts (trim_space name) (fields_func is_space (trim_space name))

  abbrev pub articles : List Text
  articles = codes "a " ∷ codes "an " ∷ codes "the " ∷ []

  abbrev pub drop_bytes : Text → Text → Text
  drop_bytes [] s = s
  drop_bytes (k ∷ kw) [] = []
  drop_bytes (k ∷ kw) (c ∷ s) = drop_bytes kw s

  -- The loop over the articles.
  unfoldable pub without_article : List Text → Text → Text
  unfolding has_prefix
  without_article [] lower = lower
  without_article (article ∷ rest) lower =
      if has_prefix article lower
      then trim_space (drop_bytes article lower)
      else without_article rest lower

  unfoldable pub sort_title_for : Text → Text
  unfolding without_article
  sort_title_for title = without_article articles (to_lower beyond (trim_space title))

  module _ (split_re : Text → List Text) where
    unfoldable pub split_author_names : Text → List Text
    split_author_names raw =
        if is_empty (trim_space raw)
        then []
        else select (λ p. not (is_empty p)) (map trim_space (split_re (trim_space raw)))

    -- The keys that were seen, and the names that are kept.
    abbrev pub Names : Type 0
    Names = List Text × List Text

    unfoldable pub add_name : Text → Names → Names
    add_name name (seen, names) =
        if is_empty name
        then (seen, names)
        else if exists (text_eq (to_lower beyond name)) seen
        then (seen, names)
        else (to_lower beyond name ∷ seen, names ++ (name ∷ []))

    unfoldable pub add_parts : List Text → Names → Names
    unfolding add_name normalize_author_name
    add_parts [] state = state
    add_parts (part ∷ parts) state = add_parts parts (add_name (normalize_author_name part) state)

    unfoldable pub add_creators : List Text → Names → Names
    unfolding add_parts split_author_names
    add_creators [] state = state
    add_creators (c ∷ creators) state =
        add_creators creators (add_parts (split_author_names c) state)

    unfoldable pub clean_author_names : List Text → List Text
    unfolding add_creators
    clean_author_names creators = (add_creators creators ([], [])).1

    abbrev pub preferred_schemes : List Text
    preferred_schemes =
        codes "ISBN" ∷ codes "ISBN-13" ∷ codes "ISBN-10" ∷ codes "ASIN" ∷ codes "MOBI-ASIN" ∷ []

    -- The last identifier that is tagged as an ISBN or ASIN, else the one that is given.
    unfoldable pub preferred_identifier : (ℕ → ℕ) → Text → List OpfIdentifier → Text
    unfolding to_upper
    preferred_identifier beyond_upper m [] = m
    preferred_identifier beyond_upper m (id ∷ ids) =
        preferred_identifier beyond_upper
          (if exists (text_eq (to_upper beyond_upper (trim_space id.scheme))) preferred_schemes
            then trim_space id.value
            else m)
          ids

    abbrev pub identifier_of : (ℕ → ℕ) → List OpfIdentifier → Text
    identifier_of beyond_upper [] = []
    identifier_of beyond_upper (id ∷ ids) =
        preferred_identifier beyond_upper (trim_space id.value) (id ∷ ids)

    abbrev pub sort_first : List Text → Text
    sort_first [] = []
    sort_first (a ∷ authors) = sort_author_name a

    abbrev pub or_zero : Option ℕ → ℕ
    or_zero none = 0
    or_zero (some f) = f

    unfoldable pub build_metadata : (ℕ → ℕ) → (Text → Option ℕ) → OpfMetadata → Metadata
    unfolding clean_author_names sort_author_name sort_title_for preferred_identifier meta_value
    build_metadata beyond_upper parse_float p =
        let authors = clean_author_names p.creator in
        record {
          title = first_trimmed p.title;
          sort_title = sort_title_for (first_trimmed p.title);
          author = join_with (codes " & ") authors;
          sort_author = sort_first authors;
          series = trim_space (meta_value p.meta (codes "calibre:series"));
          series_index =
              if is_empty (meta_value p.meta (codes "calibre:series_index"))
              then 0
              else or_zero
                  (parse_float (trim_space (meta_value p.meta (codes "calibre:series_index"))));
          description = first_trimmed p.description;
          language = first_trimmed p.language;
          publisher = first_trimmed p.publisher;
          published_date = first_trimmed p.date;
          identifier = identifier_of beyond_upper p.identifier;
          cover_data = none;
        }
