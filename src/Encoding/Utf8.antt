-- ===== src/Encoding/Utf8.antt =====
-- The bytes of a Go string that holds a text: UTF-8, with U+FFFD for what is no Unicode character.
-- A list of bytes is a `Text` of numbers below 256.
use my_eink_library.Common.{
  ltb, leb, if◌then◌else◌, lt→ltb, Bool-cases, All, All-append, Text, is_empty, ℕ, ◌+◌, ◌/◌, ◌%◌,
  ◌≤◌, ◌<◌, ◌≡◌, refl, sym, ap, ◌∙◌, ◌≢◌, inl, inr, Bool, false, ◌&&◌, ◌||◌, [], ◌∷◌, ◌++◌,
  append_assoc, arith,
}
use my_eink_library.Encoding.Base64.{IsByte}
use my_eink_library.Encoding.Split.{Lacks}

abbrev pub Bytes : Type 0
Bytes = Text

-- A continuation byte with the lowest six bits.
abbrev low_six : ℕ → ℕ
low_six c = 128 + c % 64

abbrev is_surrogate : ℕ → Bool
is_surrogate c = leb 0xD800 c && leb c 0xDFFF

unfoldable pub rune_bytes : ℕ → Bytes
rune_bytes c =
    if ltb c 0x80
    then c ∷ []
    else if ltb c 0x800
    then (192 + c / 64) ∷ low_six c ∷ []
    else if is_surrogate c || ltb 0x10FFFF c
    then 0xEF ∷ 0xBF ∷ 0xBD ∷ []
    else if ltb c 0x10000
    then (224 + c / 4096) ∷ low_six (c / 64) ∷ low_six c ∷ []
    else (240 + c / 262144) ∷ low_six (c / 4096) ∷ low_six (c / 64) ∷ low_six c ∷ []

unfoldable pub utf8 : Text → Bytes
unfolding rune_bytes
utf8 [] = []
utf8 (c ∷ s) = rune_bytes c ++ utf8 s

rune_bytes-cases :
    (P : Bytes → Type 0) (c : ℕ)
    → (c < 128 → P (c ∷ []))
    → (c < 0x800 → P ((192 + c / 64) ∷ low_six c ∷ []))
    → P (0xEF ∷ 0xBF ∷ 0xBD ∷ [])
    → (c < 0x10000 → P ((224 + c / 4096) ∷ low_six (c / 64) ∷ low_six c ∷ []))
    → (c ≤ 0x10FFFF
        → P ((240 + c / 262144) ∷ low_six (c / 4096) ∷ low_six (c / 64) ∷ low_six c ∷ []))
    → P (rune_bytes c)
unfolding rune_bytes
rune_bytes-cases P c one two replaced three four = elim (Bool-cases (ltb c 0x80)) [
  | inl a ↦ rw (rune_bytes, a) (one (ground (arith, a)))
  | inr na ↦ elim (Bool-cases (ltb c 0x800)) [
    | inl b ↦ rw (rune_bytes, na, b) (two (ground (arith, b)))
    | inr nb ↦ elim (Bool-cases (is_surrogate c || ltb 0x10FFFF c)) [
      | inl bad ↦ rw (rune_bytes, na, nb, bad) replaced
      | inr good ↦ elim (Bool-cases (ltb c 0x10000)) [
        | inl d ↦ rw (rune_bytes, na, nb, good, d) (three (ground (arith, d)))
        | inr nd ↦ rw (rune_bytes, na, nb, good, nd) (four (ground (arith, good)))
      ]
    ]
  ]
]

rune_bytes-IsByte : (c : ℕ) → All IsByte (rune_bytes c)
rune_bytes-IsByte c =
    rune_bytes-cases (All IsByte) c (λ h. omega (arith, h)) (λ h. omega (arith, h)) (omega arith)
      (λ h. omega (arith, h)) (λ h. omega (arith, h))

pub utf8-IsByte : (s : Text) → All IsByte (utf8 s)
unfolding utf8
utf8-IsByte [] = tt
utf8-IsByte (c ∷ s) =
    All-append IsByte (rune_bytes c) (utf8 s) (rune_bytes-IsByte c) (utf8-IsByte s)

rune_bytes-Lacks : (sep c : ℕ) → sep < 128 → c ≢ sep → Lacks sep (rune_bytes c)
rune_bytes-Lacks sep c h apart =
    rune_bytes-cases (Lacks sep) c (λ _. (apart, tt))
      (λ _. ((λ e. omega (arith, h, e)), ((λ e. omega (arith, h, e)), tt)))
      ((λ e. omega (arith, h, e)), ((λ e. omega (arith, h, e)), ((λ e. omega (arith, h, e)), tt)))
      (λ _. (
        (λ e. omega (arith, h, e)),
        ((λ e. omega (arith, h, e)), ((λ e. omega (arith, h, e)), tt)),
      ))
      (λ _. (
        (λ e. omega (arith, h, e)),
        (
          (λ e. omega (arith, h, e)),
          ((λ e. omega (arith, h, e)), ((λ e. omega (arith, h, e)), tt)),
        ),
      ))

-- An ASCII byte stands in the bytes of a text only where the character stands in the text.
pub utf8-Lacks : (sep : ℕ) (s : Text) → sep < 128 → Lacks sep s → Lacks sep (utf8 s)
unfolding utf8
utf8-Lacks sep [] h _ = tt
utf8-Lacks sep (c ∷ s) h (apart, rest) =
    All-append (λ x. x ≢ sep) (rune_bytes c) (utf8 s) (rune_bytes-Lacks sep c h apart)
      (utf8-Lacks sep s h rest)

pub utf8-append : (s t : Text) → utf8 (s ++ t) ≡ utf8 s ++ utf8 t
unfolding utf8
utf8-append [] t = refl
utf8-append (c ∷ s) t =
    ap (λ x. rune_bytes c ++ x) (utf8-append s t)
    ∙ sym (append_assoc (rune_bytes c) (utf8 s) (utf8 t))

-- ASCII is its own bytes.
pub utf8_ascii : (s : Text) → All (λ c. c < 128) s → utf8 s ≡ s
unfolding utf8 rune_bytes
utf8_ascii [] _ = refl
utf8_ascii (c ∷ s) (h, hs) = rw (lt→ltb c 0x80 h, utf8_ascii s hs) refl

starts : (bs rest : Bytes) → is_empty bs ≡ false → is_empty (bs ++ rest) ≡ false
starts [] rest h = absurd (cc h)
starts (c ∷ bs) rest h = refl

pub utf8_given : (s : Text) → is_empty s ≡ false → is_empty (utf8 s) ≡ false
unfolding utf8
utf8_given [] h = h
utf8_given (c ∷ s) h = starts (rune_bytes c) (utf8 s) (
    rune_bytes-cases (λ bs. is_empty bs ≡ false) c (λ _. refl) (λ _. refl) refl (λ _. refl)
      (λ _. refl))
