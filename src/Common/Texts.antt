-- ===== src/Common/Texts.antt =====
-- The methods of Python's `str` that the modelled code calls, on texts as lists of characters.
use Prim.Native.Nat.{ℕ, zero, suc, ◌+◌, ◌≤◌}
use Prim.Native.Char.{Char, code}
use Prim.Native.String.{String}
use mathlib.Core.Bool.{Bool, true, false, ◌&&◌, ◌||◌, not}
use mathlib.Core.Path.{◌≡◌}
use native.Mathlib.Omega.{arith}
use mathlib.Core.List.{List, [], ◌∷◌}
use exec_queue.Common.Tests.{leb, ◌==◌, if◌then◌else◌, non_empty}

-- `str.isspace` of one character.
abbrev pub is_space : Char → Bool
is_space c =
    let n = code c in
    (leb 9 n && leb n 13)
    || (leb 28 n && leb n 32)
    || n == 133
    || n == 160
    || n == 5760
    || (leb 8192 n && leb n 8202)
    || n == 8232
    || n == 8233
    || n == 8239
    || n == 8287
    || n == 12288

-- `text[n:]`
abbrev pub drop_chars : ℕ → String → String
drop_chars zero text = text
drop_chars (suc n) String.[] = ""
drop_chars (suc n) (String.◌∷◌ c text) = drop_chars n text

-- `text[:n]`
abbrev pub prefix : ℕ → String → String
prefix zero text = ""
prefix (suc n) String.[] = ""
prefix (suc n) (String.◌∷◌ c text) = String.◌∷◌ c (prefix n text)

-- `text.startswith(start)`
abbrev pub startswith : String → String → Bool
startswith text String.[] = true
startswith String.[] (String.◌∷◌ d start) = false
startswith (String.◌∷◌ c text) (String.◌∷◌ d start) = code c == code d && startswith text start

-- `s + t`
abbrev pub append : String → String → String
append String.[] t = t
append (String.◌∷◌ c s) t = String.◌∷◌ c (append s t)

-- `len(text)`
abbrev pub length_of : String → ℕ
length_of String.[] = 0
length_of (String.◌∷◌ c text) = suc (length_of text)

-- The text from its first character on that does not pass.
abbrev pub skip_while : (Char → Bool) → String → String
skip_while p String.[] = ""
skip_while p (String.◌∷◌ c text) =
    let rest = skip_while p text in if p c then rest else String.◌∷◌ c text

abbrev pub until : (Char → Bool) → String → String
until p String.[] = ""
until p (String.◌∷◌ c text) = let rest = until p text in if p c then "" else String.◌∷◌ c rest

abbrev pub rstrip : String → String
rstrip String.[] = ""
rstrip (String.◌∷◌ c text) =
    let rest = rstrip text in if is_space c && not (non_empty rest) then "" else String.◌∷◌ c rest

-- `str.strip`
abbrev pub strip : String → String
strip text = rstrip (skip_while is_space text)

-- The first of `text.split()`, or the empty text where there is none.
abbrev pub first_word : String → String
first_word text = until is_space (skip_while is_space text)

abbrev pub add_char : Char → List String → List String
add_char c [] = String.◌∷◌ c "" ∷ []
add_char c (line ∷ lines) = String.◌∷◌ c line ∷ lines

-- `text.split("\n")`
abbrev pub split_lines : String → List String
split_lines String.[] = "" ∷ []
split_lines (String.◌∷◌ c text) =
    let lines = split_lines text in if code c == 10 then "" ∷ lines else add_char c lines

-- `text.replace(a, b)` of single characters
abbrev pub replace : Char → Char → String → String
replace a b String.[] = ""
replace a b (String.◌∷◌ c text) = String.◌∷◌ (if code c == code a then b else c) (replace a b text)

pub length_of-append : (s t : String) → length_of (append s t) ≡ length_of s + length_of t
length_of-append String.[] t = omega arith
length_of-append (String.◌∷◌ c s) t = omega (arith, length_of-append s t)

pub length_of-prefix-le : (n : ℕ) (t : String) → length_of (prefix n t) ≤ n
length_of-prefix-le zero t = omega arith
length_of-prefix-le (suc n) String.[] = omega arith
length_of-prefix-le (suc n) (String.◌∷◌ c t) = omega (arith, length_of-prefix-le n t)
