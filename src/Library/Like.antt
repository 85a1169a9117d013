-- ===== src/Library/Like.antt =====
-- LIKE of SQLite, with and without ESCAPE, and escapeLike of internal/index/queries.go.
use my_eink_library.Common.{
  ◌==◌, if◌then◌else◌, exists, Text, ascii_lower, ℕ, Bool, true, false, ◌&&◌, List, [], ◌∷◌, map,
}

-- A pattern: % is any run of characters, _ is any one.
pub data LikeToken : Type 0 where
  any_run any_one : LikeToken
  letter : ℕ → LikeToken

abbrev pub token_of : ℕ → LikeToken
token_of c = if c == b'%' then any_run else if c == b'_' then any_one else letter c

-- LIKE ?
unfoldable pub plain_pattern : Text → List LikeToken
plain_pattern s = map token_of s

-- LIKE ? ESCAPE '\': a character behind the escape character stands for itself.
unfoldable pub escaped_pattern : Text → List LikeToken
escaped_pattern [] = []
escaped_pattern (c ∷ []) = if c == b'\\' then [] else token_of c ∷ []
escaped_pattern (c ∷ d ∷ s) =
    let behind = escaped_pattern s in
    let rest = escaped_pattern (d ∷ s) in
    if c == b'\\' then letter d ∷ behind else token_of c ∷ rest

unfoldable pub suffixes : Text → List Text
suffixes [] = [] ∷ []
suffixes (c ∷ s) = (c ∷ s) ∷ suffixes s

-- The case of ASCII letters is ignored.
abbrev pub same_letter : ℕ → ℕ → Bool
same_letter c d = ascii_lower c == ascii_lower d

unfoldable pub like : List LikeToken → Text → Bool
unfolding suffixes
like [] [] = true
like [] (d ∷ s) = false
like (any_run ∷ ps) s = exists (like ps) (suffixes s)
like (any_one ∷ ps) [] = false
like (any_one ∷ ps) (d ∷ s) = like ps s
like (letter c ∷ ps) [] = false
like (letter c ∷ ps) (d ∷ s) = same_letter c d && like ps s

-- strings.ReplaceAll of one character by itself behind a backslash
unfoldable pub escape_one : ℕ → Text → Text
escape_one k [] = []
escape_one k (c ∷ s) = let rest = escape_one k s in if c == k then b'\\' ∷ c ∷ rest else c ∷ rest

unfoldable pub escape_like : Text → Text
unfolding escape_one
escape_like s = escape_one b'_' (escape_one b'%' (escape_one b'\\' s))
