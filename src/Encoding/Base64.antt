-- ===== src/Encoding/Base64.antt =====
-- base64.RawURLEncoding: the URL alphabet with no padding.
use my_eink_library.Common.{
  ltb, leb, ◌==◌, if◌then◌else◌, All, Text, ℕ, ◌+◌, ◌-◌, ◌*◌, ◌/◌, ◌%◌, ◌<◌, ◌≡◌, refl, ◌≢◌, ◌&&◌,
  ◌||◌, Option, none, some, [], ◌∷◌, map, arith,
}

-- A value below 64 as a letter, a digit, `-` or `_`.
letter : ℕ → ℕ
letter n =
    if ltb n 26
    then n + b'A'
    else if ltb n 52
    then n - 26 + b'a'
    else if ltb n 62
    then n - 52 + b'0'
    else if n == 62
    then b'-'
    else b'_'

value : ℕ → Option ℕ
value c =
    if leb b'A' c && leb c b'Z'
    then some (c - b'A')
    else if leb b'a' c && leb c b'z'
    then some (c - b'a' + 26)
    else if leb b'0' c && leb c b'9'
    then some (c - b'0' + 52)
    else if c == b'-'
    then some 62
    else if c == b'_'
    then some 63
    else none

-- Three bytes make four sextets; the end is filled up with zero bits.
sextets : Text → Text
sextets [] = []
sextets (a ∷ []) = (a / 4) ∷ (a % 4 * 16) ∷ []
sextets (a ∷ b ∷ []) = (a / 4) ∷ (a % 4 * 16 + b / 16) ∷ (b % 16 * 4) ∷ []
sextets (a ∷ b ∷ c ∷ rest) =
    (a / 4) ∷ (a % 4 * 16 + b / 16) ∷ (b % 16 * 4 + c / 64) ∷ (c % 64) ∷ sextets rest

unfoldable pub encode : Text → Text
unfolding letter sextets
encode s = map letter (sextets s)

values : Text → Option Text
unfolding value
values [] = some []
values (c ∷ s) = elim (value c) [
  | none ↦ none
  | some n ↦ elim (values s) [ none ↦ none | some ns ↦ some (n ∷ ns) ]
]

-- The bytes of a sequence of sextets. The unused bits of the last one are not looked at, and one
-- sextet alone is refused.
join : Text → Option Text
join [] = some []
join (w ∷ []) = none
join (w ∷ x ∷ []) = some ((w * 4 + x / 16) ∷ [])
join (w ∷ x ∷ y ∷ []) = some ((w * 4 + x / 16) ∷ (x % 16 * 16 + y / 4) ∷ [])
join (w ∷ x ∷ y ∷ z ∷ rest) = elim (join rest) [
  | none ↦ none
  | some bytes ↦ some ((w * 4 + x / 16) ∷ (x % 16 * 16 + y / 4) ∷ (y % 4 * 64 + z) ∷ bytes)
]

-- The decoder skips line ends.
skip_lines : Text → Text
skip_lines [] = []
skip_lines (c ∷ s) = let rest = skip_lines s in if (c == 10) || (c == 13) then rest else c ∷ rest

unfoldable pub decode : Text → Option Text
unfolding values join skip_lines
decode s = elim (values (skip_lines s)) [ none ↦ none | some ns ↦ join ns ]

abbrev pub IsByte : ℕ → Type 0
IsByte c = c < 256

value-letter : (n : ℕ) → n < 64 → value (letter n) ≡ some n
unfolding value letter
value-letter n h = ground arith

letter_plain : (n : ℕ) → (letter n ≢ 10) × (letter n ≢ 13) × (letter n ≢ b'.')
unfolding letter
letter_plain n = (ground arith, ground arith, ground arith)

skip_letters : (ns : Text) → skip_lines (map letter ns) ≡ map letter ns
unfolding skip_lines
skip_letters [] = refl
skip_letters (n ∷ ns) = ground (arith, skip_letters ns, (letter_plain n).0, (letter_plain n).1)

values_letters : (ns : Text) → All (λ n. n < 64) ns → values (map letter ns) ≡ some ns
unfolding values
values_letters [] _ = refl
values_letters (n ∷ ns) (h, hs) = ground (arith, value-letter n h, values_letters ns hs)

sextets_small : (s : Text) → All IsByte s → All (λ n. n < 64) (sextets s)
unfolding sextets
sextets_small [] _ = tt
sextets_small (a ∷ []) (ha, _) = omega arith
sextets_small (a ∷ b ∷ []) (ha, (hb, _)) = omega arith
sextets_small (a ∷ b ∷ c ∷ rest) (ha, (hb, (hc, hr))) =
    (omega arith, (omega arith, (omega arith, (omega arith, sextets_small rest hr))))

join-sextets : (s : Text) → All IsByte s → join (sextets s) ≡ some s
unfolding join sextets
join-sextets [] _ = refl
join-sextets (a ∷ []) (ha, _) = ground arith
join-sextets (a ∷ b ∷ []) (ha, (hb, _)) = ground arith
join-sextets (a ∷ b ∷ c ∷ rest) (ha, (hb, (hc, hr))) = ground (arith, join-sextets rest hr)

-- Decoding an encoded text of bytes gives it back.
pub decode-encode : (s : Text) → All IsByte s → decode (encode s) ≡ some s
unfolding decode encode
decode-encode s h = ground (
  arith,
  skip_letters (sextets s),
  values_letters (sextets s) (sextets_small s h),
  join-sextets s h,
)

map-letter-no_dot : (ns : Text) → All (λ c. c ≢ b'.') (map letter ns)
map-letter-no_dot [] = tt
map-letter-no_dot (n ∷ ns) = ((letter_plain n).2, map-letter-no_dot ns)

-- No encoded text holds a full stop.
pub encode-no_dot : (s : Text) → All (λ c. c ≢ b'.') (encode s)
unfolding encode
encode-no_dot s = map-letter-no_dot (sextets s)
