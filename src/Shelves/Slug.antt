-- ===== src/Shelves/Slug.antt =====
-- shelfSlug of internal/index/shelves.go. `beyond` is what strings.ToLower does beyond ASCII.
use my_eink_library.Common.{
  leb, ◌==◌, if◌then◌else◌, exists, length, Text, codes, to_lower, ℕ, zero, suc, ◌+◌, Bool, true,
  false, not, ◌&&◌, ◌||◌, Option, none, some, reverse, List, [], ◌∷◌, ◌++◌,
}
use my_eink_library.Shelves.{Db, ShelfRow, has_slug}
use my_eink_library.Encoding.Decimal.{format_int}

abbrev pub dash : ℕ
dash = b'-'

-- (r >= 'a' && r <= 'z') || (r >= '0' && r <= '9')
abbrev pub is_slug_char : ℕ → Bool
is_slug_char r = (leb b'a' r && leb r b'z') || (leb b'0' r && leb r b'9')

-- b.Len() > 0 && !strings.HasSuffix(b.String(), "-"), of the string built so far in reverse
abbrev pub takes_dash : Text → Bool
takes_dash [] = false
takes_dash (c ∷ built) = not (c == dash)

abbrev pub push_rune : ℕ → Text → Text
push_rune r built =
    if is_slug_char r then r ∷ built else if takes_dash built then dash ∷ built else built

unfoldable pub build_slug : Text → Text → Text
build_slug built [] = built
build_slug built (r ∷ name) = build_slug (push_rune r built) name

unfoldable pub drop_dashes : Text → Text
drop_dashes [] = []
drop_dashes (c ∷ s) = if c == dash then drop_dashes s else c ∷ s

-- strings.Trim(s, "-") of the reverse of `built`
unfoldable pub trim_built : Text → Text
unfolding drop_dashes
trim_built built = drop_dashes (reverse (drop_dashes built))

abbrev pub or_shelf : Text → Text
or_shelf [] = codes "shelf"
or_shelf (c ∷ s) = c ∷ s

unfoldable pub slug_base : (ℕ → ℕ) → Text → Text
unfolding trim_built build_slug
slug_base beyond name = or_shelf (trim_built (build_slug [] (to_lower beyond name)))

-- The n-th slug that is tried.
unfoldable pub numbered : Text → ℕ → Text
numbered base n = if leb n 1 then base else base ++ dash ∷ format_int n

-- The loop over n, with as much fuel as there are candidates to try.
unfoldable pub free_slug : ℕ → ℕ → Text → Text → List ShelfRow → Option Text
unfolding numbered
free_slug zero n base username shelves = none
free_slug (suc fuel) n base username shelves =
    elim (exists (has_slug username (numbered base n)) shelves) [
      | true ↦ free_slug fuel (n + 1) base username shelves
      | false ↦ some (numbered base n)
    ]

-- One candidate more than there are shelves.
unfoldable pub shelf_slug : (ℕ → ℕ) → Text → Text → Db → Option Text
unfolding free_slug slug_base
shelf_slug beyond username name d =
    free_slug (suc (length d.shelves)) 1 (slug_base beyond name) username d.shelves
