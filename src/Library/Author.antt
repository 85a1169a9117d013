-- ===== src/Library/Author.antt =====
-- The books that a link to an author lists.
use my_eink_library.Common.{
  Text, text_eq, text_eq_iff, ◌≡◌, refl, sym, ap, ◌∙◌, ◌↔◌, ◌⊎◌, inl, inr, Bool, true, false, ◌||◌,
  List, [], ◌∷◌, ◌++◌, append-nil,
}
use my_eink_library.Library.Like.{escaped_pattern, LikeToken, like, any_run, escape_like}
use my_eink_library.Library.Filters.{matches_author, delimiter}
use my_eink_library.Library.Matching.{
  SameText, letters, letters_sound, letters_complete, run_sound, run_complete,
}
use my_eink_library.Library.AuthorPatterns.{
  NamesAuthor, anything, delimiter_exact, first_component, first_pattern, last_component,
  last_pattern, like-anything, middle_component, middle_pattern, whole,
}

-- What the delimiter, then a pattern, matches.
delimiter_sound :
    (ps : List LikeToken) (t : Text)
    → like (letters delimiter ++ ps) t ≡ true
    → (y : Text) × (t ≡ delimiter ++ y) × (like ps y ≡ true)
delimiter_sound ps t h =
    let (x, y, e, alike, rest) = letters_sound delimiter ps t h in
    (y, e ∙ ap (λ z. z ++ y) (delimiter_exact x alike), rest)

delimiter_complete :
    (ps : List LikeToken) (y : Text)
    → like ps y ≡ true
    → like (letters delimiter ++ ps) (delimiter ++ y) ≡ true
delimiter_complete ps y h = letters_complete delimiter ps delimiter y refl h

end_sound : (t : Text) → like [] t ≡ true → t ≡ []
unfolding like
end_sound [] h = refl
end_sound (c ∷ t) h = absurd (cc h)

first_sound :
    (name author : Text)
    → like (letters name ++ (letters delimiter ++ anything)) author ≡ true
    → NamesAuthor name author
first_sound name author h =
    let (x, y, e, alike, rest) = letters_sound name (letters delimiter ++ anything) author h in
    let (z, e', _) = delimiter_sound anything y rest in
    first_component x z alike (e ∙ ap (λ w. x ++ w) e')

last_sound :
    (name author : Text)
    → like (any_run ∷ letters delimiter ++ letters name) author ≡ true
    → NamesAuthor name author
unfolding like
last_sound name author h =
    let (before, y, e, rest) = run_sound (letters delimiter ++ letters name) author h in
    let (z, e', rest') = delimiter_sound (letters name) y rest in
    let (x, w, e'', alike, nothing) =
      letters_sound name [] z (ap (λ p. like p z) (append-nil (letters name)) ∙ rest') in
    last_component before x alike (
      e
      ∙ ap (λ v. before ++ v)
          (e'
            ∙ ap (λ v. delimiter ++ v)
                (e'' ∙ ap (λ v. x ++ v) (end_sound w nothing) ∙ append-nil x)))

middle_sound :
    (name author : Text)
    → like (any_run ∷ letters delimiter ++ (letters name ++ (letters delimiter ++ anything))) author
      ≡ true
    → NamesAuthor name author
unfolding like
middle_sound name author h =
    let (before, y, e, rest) =
      run_sound (letters delimiter ++ (letters name ++ (letters delimiter ++ anything))) author h in
    let (z, e', rest') = delimiter_sound (letters name ++ (letters delimiter ++ anything)) y rest in
    let (x, w, e'', alike, rest'') = letters_sound name (letters delimiter ++ anything) z rest' in
    let (v, e''', _) = delimiter_sound anything w rest'' in
    middle_component before x v alike
      (e ∙ ap (λ u. before ++ u) (e' ∙ ap (λ u. delimiter ++ u) (e'' ∙ ap (λ u. x ++ u) e''')))

-- The test with three patterns.
abbrev by_patterns : Text → Text → List LikeToken → List LikeToken → List LikeToken → Bool
by_patterns name author p q r =
    text_eq author name || (like p author || (like q author || like r author))

matches_author-patterns :
    (name author : Text)
    → matches_author name author
      ≡ by_patterns name author
          (letters name ++ (letters delimiter ++ anything))
          (any_run ∷ letters delimiter ++ letters name)
          (any_run ∷ letters delimiter ++ (letters name ++ (letters delimiter ++ anything)))
unfolding matches_author
matches_author-patterns name author =
    ap
      (λ p.
        by_patterns name author p (escaped_pattern (b'%' ∷ delimiter ++ escape_like name))
          (escaped_pattern (b'%' ∷ delimiter ++ (escape_like name ++ (delimiter ++ b'%' ∷ [])))))
      (first_pattern name)
    ∙ ap
        (λ q.
          by_patterns name author (letters name ++ (letters delimiter ++ anything)) q
            (escaped_pattern (b'%' ∷ delimiter ++ (escape_like name ++ (delimiter ++ b'%' ∷ [])))))
        (last_pattern name)
    ∙ ap
        (λ r.
          by_patterns name author (letters name ++ (letters delimiter ++ anything))
            (any_run ∷ letters delimiter ++ letters name) r)
        (middle_pattern name)

or_cases : (a b : Bool) → (a || b) ≡ true → (a ≡ true) ⊎ (b ≡ true)
or_cases true b h = inl refl
or_cases false b h = inr h

or_left : (a b : Bool) → a ≡ true → (a || b) ≡ true
or_left a b h = rw h refl

or_right : (a b : Bool) → b ≡ true → (a || b) ≡ true
or_right true b h = refl
or_right false b h = h

module _ (name author : Text) where
  first_test : Bool
  first_test = like (letters name ++ (letters delimiter ++ anything)) author

  last_test : Bool
  last_test = like (any_run ∷ letters delimiter ++ letters name) author

  middle_test : Bool
  middle_test =
      like (any_run ∷ letters delimiter ++ (letters name ++ (letters delimiter ++ anything))) author

  sound :
      (text_eq author name || (first_test || (last_test || middle_test))) ≡ true
      → NamesAuthor name author
  unfolding first_test last_test middle_test
  sound h = elim (or_cases (text_eq author name) (first_test || (last_test || middle_test)) h) [
    | inl e ↦ whole ((text_eq_iff author name).0 e)
    | inr h1 ↦ elim (or_cases first_test (last_test || middle_test) h1) [
      | inl e ↦ first_sound name author e
      | inr h2 ↦ elim (or_cases last_test middle_test h2) [
        | inl e ↦ last_sound name author e
        | inr e ↦ middle_sound name author e
      ]
    ]
  ]

  first_complete :
      (x rest : Text)
      → SameText x name
      → like (letters name ++ (letters delimiter ++ anything)) (x ++ (delimiter ++ rest)) ≡ true
  first_complete x rest alike =
      letters_complete name (letters delimiter ++ anything) x (delimiter ++ rest) alike
        (delimiter_complete anything rest (like-anything rest))

  complete :
      NamesAuthor name author
      → (text_eq author name || (first_test || (last_test || middle_test))) ≡ true
  unfolding first_test last_test middle_test like
  complete (whole e) = or_left (text_eq author name) _ ((text_eq_iff author name).1 e)
  complete (first_component x rest alike e) = or_right (text_eq author name) _ (
      or_left first_test _ (
        ap (like (letters name ++ (letters delimiter ++ anything))) e
        ∙ first_complete x rest alike))
  complete (last_component before x alike e) = or_right (text_eq author name) _ (
      or_right first_test _ (
        or_left last_test _ (
          ap (like (any_run ∷ letters delimiter ++ letters name)) e
          ∙ run_complete (letters delimiter ++ letters name) before (delimiter ++ x) (
              delimiter_complete (letters name) x (
                ap (λ p. like p x) (sym (append-nil (letters name)))
                ∙ ap (like (letters name ++ [])) (sym (append-nil x))
                ∙ letters_complete name [] x [] alike refl)))))
  complete (middle_component before x rest alike e) = or_right (text_eq author name) _ (
      or_right first_test _ (
        or_right last_test _ (
          ap
            (like
              (any_run ∷ letters delimiter ++ (letters name ++ (letters delimiter ++ anything))))
            e
          ∙ run_complete (letters delimiter ++ (letters name ++ (letters delimiter ++ anything)))
              before (delimiter ++ (x ++ (delimiter ++ rest)))
              (delimiter_complete (letters name ++ (letters delimiter ++ anything))
                (x ++ (delimiter ++ rest)) (first_complete x rest alike)))))

  -- The filter by author takes exactly the books whose author column is the name, or has it, up to the
  -- case of ASCII letters, as a component between " & ", whatever wildcards of LIKE the name holds.
  pub matches_author_iff : (matches_author name author ≡ true) ↔ NamesAuthor name author
  unfolding first_test last_test middle_test
  matches_author_iff = (
    (λ h. sound (sym (matches_author-patterns name author) ∙ h)),
    (λ n. matches_author-patterns name author ∙ complete n),
  )
