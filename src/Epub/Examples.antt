-- ===== src/Epub/Examples.antt =====
-- The authors of a book that names one twice.
use my_eink_library.Provider.{fields_func}
use my_eink_library.Common.{
  indicator, count, exists, select, Text, codes, text_eq, is_space, trim_left, trim_space, ℕ, ◌≡◌,
  refl, List, [], ◌∷◌,
}
use my_eink_library.Encoding.Split.{split, split_n, cut}
use my_eink_library.Epub.{
  clean_author_names, add_creators, add_parts, add_name, split_author_names, normalize_author_name,
  join_with,
}
use my_eink_library.Epub.Authors.{has_key, creator_names, clean_author_names-once}
use my_eink_library.Provider.{split_words}

abbrev ascii_only : ℕ → ℕ
ascii_only c = c

-- Splits at "&" alone.
abbrev at_ampersand : Text → List Text
at_ampersand s = split b'&' s

abbrev two_creators : List Text
two_creators = codes "P.C. Cast & Kristin Cast" ∷ codes "Cast, P.C." ∷ []

clean_author_names-once_example :
    count
      (has_key ascii_only at_ampersand (codes "p.c. cast"))
      (clean_author_names ascii_only at_ampersand two_creators)
    ≡ indicator (exists (creator_names ascii_only at_ampersand (codes "p.c. cast")) two_creators)
clean_author_names-once_example =
    clean_author_names-once ascii_only at_ampersand (codes "p.c. cast") two_creators

keeps_two :
    clean_author_names ascii_only at_ampersand two_creators
    ≡ codes "P.C. Cast" ∷ codes "Kristin Cast" ∷ []
unfolding clean_author_names add_creators add_parts add_name split_author_names
    normalize_author_name join_with fields_func split_words split_n cut split count exists select
    trim_space trim_left is_space text_eq
keeps_two = refl
