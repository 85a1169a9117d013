-- ===== src/Encoding/Split.antt =====
-- strings.SplitN and strings.Split at one byte.
use my_eink_library.Common.{
  ◌==◌, if◌then◌else◌, ==_refl, All, Text, ℕ, zero, suc, ◌≡◌, refl, ◌≢◌, Option, none, some, List,
  [], ◌∷◌, ◌++◌, arith,
}

-- What stands before the first separator, and what stands after it, if there is one.
unfoldable pub cut : ℕ → Text → Text × Option Text
cut sep [] = ([], none)
cut sep (c ∷ s) = if c == sep then ([], some s) else (c ∷ (cut sep s).0, (cut sep s).1)

-- strings.SplitN(s, sep, n) for n > 0.
unfoldable pub split_n : ℕ → ℕ → Text → List Text
split_n sep zero s = []
split_n sep (suc zero) s = s ∷ []
split_n sep (suc (suc n)) s = elim (cut sep s).1 [
  | none ↦ s ∷ []
  | some rest ↦ (cut sep s).0 ∷ split_n sep (suc n) rest
]

abbrev pub Lacks : ℕ → Text → Type 0
Lacks sep = All (λ c. c ≢ sep)

pub cut_at : (sep : ℕ) (p rest : Text) → Lacks sep p → cut sep (p ++ sep ∷ rest) ≡ (p, some rest)
unfolding cut
cut_at sep [] rest _ = rw (==_refl sep)
cut_at sep (c ∷ p) rest (hc, hp) = ground (arith, cut_at sep p rest hp)

pub cut-Lacks : (sep : ℕ) (p : Text) → Lacks sep p → cut sep p ≡ (p, none)
unfolding cut
cut-Lacks sep [] _ = refl
cut-Lacks sep (c ∷ p) (hc, hp) = ground (arith, cut-Lacks sep p hp)

-- strings.Split
unfoldable pub split : ℕ → Text → List Text
split sep [] = [] ∷ []
split sep (c ∷ s) = elim (split sep s) [
  | [] ↦ []
  | part ∷ parts ↦ if c == sep then [] ∷ part ∷ parts else (c ∷ part) ∷ parts
]
