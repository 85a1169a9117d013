-- ===== src/Library/Matching.antt =====
-- What a pattern of escaped text and % matches.
use my_eink_library.Common.{
  ◌==◌, if◌then◌else◌, ==_iff, Bool-cases, and_left, and_right, exists, Text, ascii_lower,
  lower_ascii, ℕ, ◌≡◌, refl, ap, ◌∙◌, inl, inr, true, false, ◌||◌, List, [], ◌∷◌, ◌++◌, map, arith,
}
use my_eink_library.Library.Like.{
  escape_like, same_letter, like, suffixes, LikeToken, escaped_pattern, letter, escape_one,
  token_of,
}

-- Equal but for the case of ASCII letters.
abbrev pub SameText : Text → Text → Type 0
SameText s t = lower_ascii s ≡ lower_ascii t

abbrev pub letters : Text → List LikeToken
letters = map letter

same_letters :
    (c d : ℕ) (s t : Text) → same_letter c d ≡ true → SameText s t → SameText (d ∷ s) (c ∷ t)
same_letters c d s t h e = cc ((==_iff (ascii_lower c) (ascii_lower d)).0 h, e)

pub letters_sound :
    (s : Text) (ps : List LikeToken) (t : Text)
    → like (letters s ++ ps) t ≡ true
    → (x : Text) × (y : Text) × (t ≡ x ++ y) × SameText x s × (like ps y ≡ true)
unfolding like
letters_sound [] ps t h = ([], t, refl, refl, h)
letters_sound (c ∷ s) ps [] h = absurd (cc h)
letters_sound (c ∷ s) ps (d ∷ t) h =
    let (x, y, e, alike, rest) =
      letters_sound s ps t (and_right (same_letter c d) (like (letters s ++ ps) t) h) in
    (
      d ∷ x,
      y,
      ap (λ z. d ∷ z) e,
      same_letters c d x s (and_left (same_letter c d) (like (letters s ++ ps) t) h) alike,
      rest,
    )

pub letters_complete :
    (s : Text) (ps : List LikeToken) (x y : Text)
    → SameText x s
    → like ps y ≡ true
    → like (letters s ++ ps) (x ++ y) ≡ true
unfolding like
letters_complete [] ps [] y alike h = h
letters_complete [] ps (d ∷ x) y alike h = absurd (cc alike)
letters_complete (c ∷ s) ps [] y alike h = absurd (cc alike)
letters_complete (c ∷ s) ps (d ∷ x) y alike h =
    let first : ascii_lower c ≡ ascii_lower d = cc alike in
    let rest : SameText x s = cc alike in
    rw ((==_iff (ascii_lower c) (ascii_lower d)).1 first) (letters_complete s ps x y rest h)

pub run_sound :
    (ps : List LikeToken) (t : Text)
    → exists (like ps) (suffixes t) ≡ true
    → (x : Text) × (y : Text) × (t ≡ x ++ y) × (like ps y ≡ true)
unfolding suffixes exists
run_sound ps [] h = ([], [], refl, ground (arith, h))
run_sound ps (c ∷ t) h = elim (Bool-cases (like ps (c ∷ t))) [
  | inl here ↦ ([], c ∷ t, refl, here)
  | inr later ↦
      let (x, y, e, rest) = run_sound ps t (ground (arith, h, later)) in
      (c ∷ x, y, ap (λ z. c ∷ z) e, rest)
]

pub run_complete :
    (ps : List LikeToken) (x y : Text)
    → like ps y ≡ true
    → exists (like ps) (suffixes (x ++ y)) ≡ true
unfolding suffixes exists
run_complete ps [] [] h = ground (arith, h)
run_complete ps [] (c ∷ y) h = ground (arith, h)
run_complete ps (c ∷ x) y h = ground (arith, run_complete ps x y h)

-- Escaped text stands for itself.

abbrev escaped : ℕ → Text → Text
escaped c s = if c == b'\\' || (c == b'%' || c == b'_') then b'\\' ∷ c ∷ s else c ∷ s

escaped-append : (c : ℕ) (s t : Text) → escaped c s ++ t ≡ escaped c (s ++ t)
escaped-append c s t = elim (Bool-cases (c == b'\\' || (c == b'%' || c == b'_'))) [
  | inl special ↦ rw special refl
  | inr plain ↦ rw plain refl
]

escape_like-cons : (c : ℕ) (s : Text) → escape_like (c ∷ s) ≡ escaped c (escape_like s)
unfolding escape_like escape_one
escape_like-cons c s = elim (Bool-cases (c == b'\\')) [
  | inl its ↦ rw ((==_iff c b'\\').0 its) refl
  | inr a ↦ elim (Bool-cases (c == b'%')) [
    | inl its ↦ rw ((==_iff c b'%').0 its) refl
    | inr b ↦ elim (Bool-cases (c == b'_')) [
      | inl its ↦ rw ((==_iff c b'_').0 its) refl
      | inr e ↦ rw (escape_one, a, b, e) refl
    ]
  ]
]

pub plain_cons :
    (c : ℕ) (s : Text)
    → (c == b'\\') ≡ false
    → escaped_pattern (c ∷ s) ≡ token_of c ∷ escaped_pattern s
unfolding escaped_pattern
plain_cons c [] h = rw h refl
plain_cons c (d ∷ s) h = rw h refl

escaped_pattern-escaped :
    (c : ℕ) (s : Text) → escaped_pattern (escaped c s) ≡ letter c ∷ escaped_pattern s
unfolding escaped_pattern
escaped_pattern-escaped c s = elim (Bool-cases (c == b'\\')) [
  | inl its ↦ rw its refl
  | inr a ↦ elim (Bool-cases (c == b'%')) [
    | inl its ↦ rw (a, its) refl
    | inr b ↦ elim (Bool-cases (c == b'_')) [
      | inl its ↦ rw (a, b, its) refl
      | inr e ↦ rw (a, b, e) (plain_cons c s a ∙ rw (b, e) refl)
    ]
  ]
]

pub escaped_pattern-escape_like :
    (s t : Text) → escaped_pattern (escape_like s ++ t) ≡ letters s ++ escaped_pattern t
unfolding escape_like escape_one
escaped_pattern-escape_like [] t = refl
escaped_pattern-escape_like (c ∷ s) t =
    ap escaped_pattern
      (ap (λ x. x ++ t) (escape_like-cons c s) ∙ escaped-append c (escape_like s) t)
    ∙ escaped_pattern-escaped c (escape_like s ++ t)
    ∙ ap (λ x. letter c ∷ x) (escaped_pattern-escape_like s t)
