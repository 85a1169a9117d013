-- ===== src/Encoding/Decimal.antt =====
-- strconv.FormatInt of a number that is not negative, and strconv.ParseInt, in base 10.
use my_eink_library.Common.{
  ltb, leb, ◌==◌, if◌then◌else◌, ltb→lt, Bool-cases, All, Text, codes, ℕ, zero, suc, ◌+◌, ◌-◌, ◌*◌,
  ◌/◌, ◌%◌, ◌^◌, ◌≤◌, ◌<◌, ◌≡◌, refl, ◌∙◌, ◌≢◌, ◌⊎◌, inl, inr, Bool, true, false, not, ◌&&◌, Option,
  none, some, [], ◌∷◌, arith,
}
use native.Mathlib.Nat.{pow-suc}

abbrev pub max_int64 : ℕ
max_int64 = 2 ^ 63 - 1

-- The fuel bounds the digits.
digits : ℕ → ℕ → Text → Text
digits zero n acc = acc
digits (suc f) n acc =
    let rest = digits f (n / 10) ((b'0' + n % 10) ∷ acc) in
    if ltb n 10 then (b'0' + n) ∷ acc else rest

-- 20 digits hold every int64.
unfoldable pub format_int : ℕ → Text
unfolding digits
format_int n = digits 20 n []

abbrev pub is_digit : ℕ → Bool
is_digit c = leb b'0' c && leb c b'9'

-- The number that digits spell behind `n`, none at another byte or past `limit`.
scan : ℕ → ℕ → Text → Option ℕ
scan limit n [] = some n
scan limit n (c ∷ s) =
    let rest = scan limit (n * 10 + (c - b'0')) s in
    if not (is_digit c) then none else if ltb limit (n * 10 + (c - b'0')) then none else rest

-- The sign of a parsed number is true for a minus.
scan_signed : Bool → Text → Option (Bool × ℕ)
scan_signed negative [] = none
scan_signed negative (c ∷ s) =
    elim (scan (if negative then max_int64 + 1 else max_int64) 0 (c ∷ s)) [
      | none ↦ none
      | some n ↦ some (negative, n)
    ]

unfoldable pub parse_int : Text → Option (Bool × ℕ)
unfolding scan_signed scan
parse_int [] = none
parse_int (c ∷ s) =
    if c == b'-'
    then scan_signed true s
    else if c == b'+'
    then scan_signed false s
    else scan_signed false (c ∷ s)

format_now : format_int 1700000000 ≡ codes "1700000000"
unfolding format_int
format_now = refl

tenth_small : (f n : ℕ) → n < 10 ^ suc f → n / 10 < 10 ^ f
tenth_small f n h = omega (arith, pow-suc 10 f)

-- Every byte of a print is a digit.
digits_plain :
    (f n : ℕ) (acc : Text)
    → All (λ c. is_digit c ≡ true) acc
    → All (λ c. is_digit c ≡ true) (digits f n acc)
unfolding digits
digits_plain zero n acc h = h
digits_plain (suc f) n acc h = elim (Bool-cases (ltb n 10)) [
  | inl last ↦ rw last (ground arith, h)
  | inr more ↦ rw more (digits_plain f (n / 10) ((b'0' + n % 10) ∷ acc) (ground arith, h))
]

-- Reading the last digit of `n` after the digits before it gives `n`.
scan_last :
    (n limit : ℕ) (acc : Text)
    → n ≤ limit
    → scan limit (n / 10) ((b'0' + n % 10) ∷ acc) ≡ scan limit n acc
unfolding scan
scan_last n limit acc le = ground arith

scan_only :
    (n limit : ℕ) (acc : Text)
    → n < 10
    → n ≤ limit
    → scan limit 0 ((b'0' + n) ∷ acc) ≡ scan limit n acc
unfolding scan
scan_only n limit acc small le = ground arith

scan-digits :
    (f n limit : ℕ) (acc : Text)
    → n < 10 ^ f
    → n ≤ limit
    → 0 < f
    → scan limit 0 (digits f n acc) ≡ scan limit n acc
unfolding digits
scan-digits zero n limit acc small le pos = absurd (omega arith)
scan-digits (suc f) n limit acc small le pos = elim (Bool-cases (ltb n 10)) [
  | inl last ↦ rw last (scan_only n limit acc (ltb→lt n 10 last) le)
  | inr more ↦ rw more (
      scan-digits f (n / 10) limit ((b'0' + n % 10) ∷ acc) (tenth_small f n small) (omega arith)
        (fuel_left f n small more)
      ∙ scan_last n limit acc le)
]
  where
    fuel_left : (f n : ℕ) → n < 10 ^ suc f → ltb n 10 ≡ false → 0 < f
    fuel_left zero n small more = absurd (ground arith)
    fuel_left (suc f) n small more = omega arith

digits-ne-nil : (f n : ℕ) (acc : Text) → 0 < f ⊎ (acc ≢ []) → digits f n acc ≢ []
unfolding digits
digits-ne-nil zero n acc h = ground arith
digits-ne-nil (suc f) n acc h = elim (Bool-cases (ltb n 10)) [
  | inl last ↦ rw last (λ e. cc)
  | inr more ↦ rw more (digits-ne-nil f (n / 10) ((b'0' + n % 10) ∷ acc) (inr (λ e. cc)))
]

parse_digits :
    (s : Text) (n : ℕ)
    → s ≢ []
    → All (λ c. is_digit c ≡ true) s
    → scan max_int64 0 s ≡ some n
    → parse_int s ≡ some (false, n)
unfolding parse_int
parse_digits [] n h _ e = absurd (h refl)
parse_digits (c ∷ s) n h (d, ds) e = ground arith

-- Every int64 that is not negative is read back from its print.
pub parse_int-format_int : (n : ℕ) → n ≤ max_int64 → parse_int (format_int n) ≡ some (false, n)
unfolding format_int
parse_int-format_int n h =
    parse_digits (digits 20 n []) n (digits-ne-nil 20 n [] (inl (omega arith)))
      (digits_plain 20 n [] tt)
      (scan-digits 20 n max_int64 [] (omega arith) h (omega arith) ∙ (unfold scan in refl))

pub format_int_plain : (n : ℕ) → All (λ c. is_digit c ≡ true) (format_int n)
unfolding format_int
format_int_plain n = digits_plain 20 n [] tt
