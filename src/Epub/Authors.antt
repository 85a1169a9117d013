-- ===== src/Epub/Authors.antt =====
-- CleanAuthorNames keeps every author once.
use my_eink_library.Common.{
  Bool-cases, indicator, count, exists, count-append, Text, text_eq, text_eq_iff, is_empty,
  to_lower, ℕ, ◌≡◌, refl, sym, ap, ◌∙◌, inl, inr, Bool, true, false, not, ◌&&◌, ◌||◌, List, [], ◌∷◌,
  arith,
}
use my_eink_library.Epub.{
  add_creators, add_name, split_author_names, clean_author_names, normalize_author_name, add_parts,
}

text_eq_sym : (s t : Text) → text_eq s t ≡ text_eq t s
text_eq_sym s t = elim (Bool-cases (text_eq s t)) [
  | inl same ↦ same ∙ sym ((text_eq_iff t s).1 (sym ((text_eq_iff s t).0 same)))
  | inr other ↦ elim (Bool-cases (text_eq t s)) [
    | inl same ↦ (text_eq_iff s t).1 (sym ((text_eq_iff t s).0 same)) ∙ sym same
    | inr still ↦ other ∙ sym still
  ]
]

module _ (beyond : ℕ → ℕ) (split_re : Text → List Text) where
  -- A name whose lower case is that key.
  abbrev pub has_key : Text → Text → Bool
  has_key key name = text_eq (to_lower beyond name) key

  -- The parts of a creator that give a name of that key.
  abbrev names_it : Text → Text → Bool
  names_it key part =
      not (is_empty (normalize_author_name part)) && has_key key (normalize_author_name part)

  abbrev pub creator_names : Text → Text → Bool
  creator_names key creator = exists (names_it key) (split_author_names beyond split_re creator)

  -- As many names of the key as it was seen, which is once or not at all.
  record IsClean (key : Text) (state : List Text × List Text) : Type 0 where
    kept : count (has_key key) state.1 ≡ indicator (exists (text_eq key) state.0)

  add : Text → List Text × List Text → List Text × List Text
  add = add_name beyond split_re

  already :
      (key name : Text) (seen : List Text)
      → exists (text_eq (to_lower beyond name)) seen ≡ true
      → exists (text_eq key) seen ≡ (has_key key name || exists (text_eq key) seen)
  already key name seen there = elim (Bool-cases (has_key key name)) [
    | inl its ↦ rw its (
        ap (λ k. exists (text_eq k) seen) (sym ((text_eq_iff (to_lower beyond name) key).0 its))
        ∙ there)
    | inr other ↦ rw other refl
  ]

  add_name-seen :
      (key name : Text) (state : List Text × List Text)
      → exists (text_eq key) (add name state).0
        ≡ ((not (is_empty name) && has_key key name) || exists (text_eq key) state.0)
  unfolding add add_name exists
  add_name-seen key name (seen, names) = elim (Bool-cases (is_empty name)) [
    | inl blank ↦ rw (add_name, blank) refl
    | inr given ↦ elim (Bool-cases (exists (text_eq (to_lower beyond name)) seen)) [
      | inl there ↦ rw (add_name, given, there) (already key name seen there)
      | inr new ↦
          rw (add_name, given, new)
            (ap (λ x. x || exists (text_eq key) seen) (text_eq_sym key (to_lower beyond name)))
    ]
  ]

  new_key :
      (key name : Text) (seen : List Text)
      → exists (text_eq (to_lower beyond name)) seen ≡ false
      → has_key key name ≡ true
      → exists (text_eq key) seen ≡ false
  new_key key name seen new its =
      ap (λ k. exists (text_eq k) seen) (sym ((text_eq_iff (to_lower beyond name) key).0 its)) ∙ new

  add_name-IsClean :
      (key name : Text) (state : List Text × List Text)
      → IsClean key state
      → IsClean key (add name state)
  unfolding add add_name exists count
  add_name-IsClean key name (seen, names) v = elim (Bool-cases (is_empty name)) [
    | inl blank ↦ record { kept = rw (add_name, blank) v.kept }
    | inr given ↦ elim (Bool-cases (exists (text_eq (to_lower beyond name)) seen)) [
      | inl there ↦ record { kept = rw (add_name, given, there) v.kept }
      | inr new ↦ record {
        kept =
            rw (add_name, given, new)
              (count-append (has_key key) names (name ∷ [])
                ∙ ground (
                  arith,
                  v.kept,
                  new_key key name seen new,
                  text_eq_sym key (to_lower beyond name),
                ));
      }
    ]
  ]

  -- What some parts, then some creators, do to the state.
  record Adds (key : Text) (said : Bool) (state state' : List Text × List Text) : Type 0 where
    clean : IsClean key state'
    seen : exists (text_eq key) state'.0 ≡ (said || exists (text_eq key) state.0)

  add_parts-Adds :
      (key : Text) (parts : List Text) (state : List Text × List Text)
      → IsClean key state
      → Adds key (exists (names_it key) parts) state (add_parts beyond split_re parts state)
  unfolding add add_parts exists
  add_parts-Adds key [] state v = record { clean = v; seen = refl }
  add_parts-Adds key (p ∷ parts) state v =
      let name = normalize_author_name p in
      let rest = add_parts-Adds key parts (add name state) (add_name-IsClean key name state v) in
      record {
        clean = rest.clean;
        seen =
            rest.seen
            ∙ ap (λ x. exists (names_it key) parts || x) (add_name-seen key name state)
            ∙ ground arith;
      }

  add_creators-Adds :
      (key : Text) (creators : List Text) (state : List Text × List Text)
      → IsClean key state
      → Adds key
          (exists (creator_names key) creators)
          state
          (add_creators beyond split_re creators state)
  unfolding add_creators exists
  add_creators-Adds key [] state v = record { clean = v; seen = refl }
  add_creators-Adds key (c ∷ creators) state v =
      let one = add_parts-Adds key (split_author_names beyond split_re c) state v in
      let rest =
        add_creators-Adds key creators
          (add_parts beyond split_re (split_author_names beyond split_re c) state) one.clean in
      record {
        clean = rest.clean;
        seen =
            rest.seen ∙ ap (λ x. exists (creator_names key) creators || x) one.seen ∙ ground arith;
      }

  -- Of the names that are equal in lower case, CleanAuthorNames keeps exactly one if a creator gives such
  -- a name that is not empty, and none otherwise.
  pub clean_author_names-once :
      (key : Text) (creators : List Text)
      → count (has_key key) (clean_author_names beyond split_re creators)
        ≡ indicator (exists (creator_names key) creators)
  unfolding clean_author_names exists count
  clean_author_names-once key creators =
      let all = add_creators-Adds key creators ([], []) (record { kept = refl }) in
      all.clean.kept ∙ ap indicator (all.seen ∙ ground arith)
