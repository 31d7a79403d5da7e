-- ===== src/Orchestrator/RefName.antt =====
-- execqueue/orchestrator/git_context.py: the test for the name of a branch, `_validate_ref_name` of the
-- class `GitContextPreparer`.
use Prim.Native.Char.{code}
use exec_queue.Common.{
  ℕ, String, Bool, true, false, not, ◌||◌, ◌&&◌, List, [], ◌∷◌, length, ltb, leb, ◌==◌, non_empty,
  contains, if◌then◌else◌,
}

-- The code points of a text.
abbrev pub codes : String → List ℕ
codes String.[] = []
codes (String.◌∷◌ c s) = code c ∷ codes s

-- A character of `[a-zA-Z0-9_\-/]`.
unfoldable pub is_ref_char : ℕ → Bool
is_ref_char c =
    (leb b'a' c && leb c b'z')
    || (leb b'A' c && leb c b'Z')
    || (leb b'0' c && leb c b'9')
    || c == b'_'
    || c == b'-'
    || c == b'/'

-- The rest of a match of `^[...]+$` after its first character; `$` also stands before a last newline.
unfoldable pub match_rest : List ℕ → Bool
match_rest [] = true
match_rest (c ∷ []) = is_ref_char c || c == 10
match_rest (c ∷ d ∷ cs) = let rest = match_rest (d ∷ cs) in is_ref_char c && rest

unfoldable pub matches_pattern : List ℕ → Bool
unfolding match_rest
matches_pattern [] = false
matches_pattern (c ∷ cs) = is_ref_char c && match_rest cs

abbrev pub starts_with_slash : List ℕ → Bool
starts_with_slash [] = false
starts_with_slash (c ∷ cs) = c == b'/'

abbrev pub ends_with_slash : List ℕ → Bool
ends_with_slash [] = false
ends_with_slash (c ∷ []) = c == b'/'
ends_with_slash (c ∷ d ∷ cs) = ends_with_slash (d ∷ cs)

-- `_validate_ref_name`
unfoldable pub validate_ref_name : String → Bool
unfolding matches_pattern
validate_ref_name name =
    let cs = codes name in
    if not (non_empty name) || ltb 255 (length cs)
    then false
    else if not (matches_pattern cs)
    then false
    else if starts_with_slash cs || ends_with_slash cs
    then false
    else not (contains ".." name)
