-- ===== src/Captcha/Text.antt =====
-- The operations on text that src/modules/captcha/index.ts takes from JavaScript.
use Prim.Native.Char.{code}
use qq_guardian.Base.{
  ℕ, zero, suc, ◌+◌, Bool, true, false, ◌&&◌, ◌||◌, String, leb, ◌==◌, if◌then◌else◌,
}
use qq_guardian.Account.Usable.{is_white_space}

abbrev pub is_empty : String → Bool
is_empty String.[] = true
is_empty (String.◌∷◌ c s) = false

unfoldable pub trim_start : String → String
trim_start String.[] = String.[]
trim_start (String.◌∷◌ c s) =
    let rest = trim_start s in if is_white_space (code c) then rest else String.◌∷◌ c s

unfoldable pub trim_end : String → String
trim_end String.[] = String.[]
trim_end (String.◌∷◌ c s) =
    let rest = trim_end s in
    if is_empty rest && is_white_space (code c) then String.[] else String.◌∷◌ c rest

unfoldable pub trim : String → String
trim s = trim_end (trim_start s)

-- The text before the first match of `\s`, and the text from there on.
unfoldable pub first_token : String → String
first_token String.[] = String.[]
first_token (String.◌∷◌ c s) =
    let rest = first_token s in if is_white_space (code c) then String.[] else String.◌∷◌ c rest

unfoldable pub after_token : String → String
after_token String.[] = String.[]
after_token (String.◌∷◌ c s) =
    let rest = after_token s in if is_white_space (code c) then String.◌∷◌ c s else rest

-- `token.startsWith('#')` and `token.slice(1)`.
abbrev pub has_hash : String → Bool
has_hash String.[] = false
has_hash (String.◌∷◌ c s) = code c == 35

abbrev pub without_first : String → String
without_first String.[] = String.[]
without_first (String.◌∷◌ c s) = s

-- `[a-f0-9]` with the flag `i`.
abbrev pub is_hex_digit : ℕ → Bool
is_hex_digit c = (leb 48 c && leb c 57) || (leb 97 c && leb c 102) || (leb 65 c && leb c 70)

abbrev pub are_hex_digits : ℕ → String → Bool
are_hex_digits zero String.[] = true
are_hex_digits zero (String.◌∷◌ c s) = false
are_hex_digits (suc n) String.[] = false
are_hex_digits (suc n) (String.◌∷◌ c s) =
    let rest = are_hex_digits n s in is_hex_digit (code c) && rest

-- CHALLENGE_CODE_PATTERN
abbrev pub challenge_code_length : ℕ
challenge_code_length = 10

unfoldable pub is_challenge_code : String → Bool
is_challenge_code token =
    has_hash token && are_hex_digits challenge_code_length (without_first token)

-- `toLowerCase` on a hexadecimal digit.
abbrev pub lower : ℕ → ℕ
lower c = if leb 65 c && leb c 70 then c + 32 else c

-- Equality of two codes in lower case.
unfoldable pub same_code : String → String → Bool
same_code String.[] String.[] = true
same_code String.[] (String.◌∷◌ d t) = false
same_code (String.◌∷◌ c s) String.[] = false
same_code (String.◌∷◌ c s) (String.◌∷◌ d t) =
    let rest = same_code s t in (lower (code c) == lower (code d)) && rest
