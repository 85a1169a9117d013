-- ===== src/Library/AuthorPatterns.antt =====
-- The patterns by which the books of an author are looked up, and what they mean.
use my_eink_library.Common.{
  exists, Text, ascii_lower, ℕ, ◌≤◌, ◌≡◌, refl, sym, ap, ◌∙◌, true, List, [], ◌∷◌, ◌++◌, append-nil,
  arith,
}
use my_eink_library.Library.Like.{
  escaped_pattern, LikeToken, like, any_run, suffixes, escape_like, letter,
}
use my_eink_library.Library.Filters.{delimiter}
use my_eink_library.Library.Matching.{SameText, letters, plain_cons, escaped_pattern-escape_like}

-- The author column names the author as a whole, or up to the case of ASCII letters as its first, its
-- last or a middle component between " & ".
pub data NamesAuthor (name author : Text) : Type 0 where
  whole : author ≡ name → NamesAuthor name author
  first_component :
      (x rest : Text)
      → SameText x name
      → author ≡ x ++ (delimiter ++ rest)
      → NamesAuthor name author
  last_component :
      (before x : Text)
      → SameText x name
      → author ≡ before ++ (delimiter ++ x)
      → NamesAuthor name author
  middle_component :
      (before x rest : Text)
      → SameText x name
      → author ≡ before ++ (delimiter ++ (x ++ (delimiter ++ rest)))
      → NamesAuthor name author

pub delimiter_letter : (c d : ℕ) → ascii_lower c ≡ d → d ≤ 38 → c ≡ d
delimiter_letter c d e small = ground (arith, e, small)

pub delimiter_exact : (x : Text) → SameText x delimiter → x ≡ delimiter
delimiter_exact [] e = absurd (cc e)
delimiter_exact (a ∷ []) e = absurd (cc e)
delimiter_exact (a ∷ b ∷ []) e = absurd (cc e)
delimiter_exact (a ∷ b ∷ c ∷ d ∷ x) e = absurd (cc e)
delimiter_exact (a ∷ b ∷ c ∷ []) e =
    rw
      (
        delimiter_letter a 32 (cc e) (omega arith),
        delimiter_letter b 38 (cc e) (omega arith),
        delimiter_letter c 32 (cc e) (omega arith),
      )
      refl

pub delimiter_pattern :
    (s : Text) → escaped_pattern (delimiter ++ s) ≡ letters delimiter ++ escaped_pattern s
delimiter_pattern s =
    plain_cons 32 (38 ∷ 32 ∷ s) refl
    ∙ ap (λ x. letter 32 ∷ x)
        (plain_cons 38 (32 ∷ s) refl ∙ ap (λ x. letter 38 ∷ x) (plain_cons 32 s refl))

abbrev pub anything : List LikeToken
anything = any_run ∷ []

pub like-anything : (s : Text) → like anything s ≡ true
unfolding like suffixes exists
like-anything [] = refl
like-anything (c ∷ s) = ground (arith, like-anything s)

pub run_pattern : (s : Text) → escaped_pattern (b'%' ∷ s) ≡ any_run ∷ escaped_pattern s
run_pattern s = plain_cons b'%' s refl

pub last_run : escaped_pattern (b'%' ∷ []) ≡ anything
unfolding escaped_pattern
last_run = refl

pub name_pattern : (name : Text) → escaped_pattern (escape_like name) ≡ letters name
unfolding escaped_pattern
name_pattern name =
    ap escaped_pattern (sym (append-nil (escape_like name)))
    ∙ escaped_pattern-escape_like name []
    ∙ append-nil (letters name)

pub first_pattern :
    (name : Text)
    → escaped_pattern (escape_like name ++ (delimiter ++ b'%' ∷ []))
      ≡ letters name ++ (letters delimiter ++ anything)
first_pattern name =
    escaped_pattern-escape_like name (delimiter ++ b'%' ∷ [])
    ∙ ap (λ x. letters name ++ x)
        (delimiter_pattern (b'%' ∷ []) ∙ ap (λ x. letters delimiter ++ x) last_run)

pub last_pattern :
    (name : Text)
    → escaped_pattern (b'%' ∷ delimiter ++ escape_like name)
      ≡ any_run ∷ letters delimiter ++ letters name
last_pattern name =
    run_pattern (delimiter ++ escape_like name)
    ∙ ap (λ x. any_run ∷ x)
        (delimiter_pattern (escape_like name)
          ∙ ap (λ x. letters delimiter ++ x) (name_pattern name))

pub middle_pattern :
    (name : Text)
    → escaped_pattern (b'%' ∷ delimiter ++ (escape_like name ++ (delimiter ++ b'%' ∷ [])))
      ≡ any_run ∷ letters delimiter ++ (letters name ++ (letters delimiter ++ anything))
middle_pattern name =
    run_pattern (delimiter ++ (escape_like name ++ (delimiter ++ b'%' ∷ [])))
    ∙ ap (λ x. any_run ∷ x)
        (delimiter_pattern (escape_like name ++ (delimiter ++ b'%' ∷ []))
          ∙ ap (λ x. letters delimiter ++ x) (first_pattern name))
