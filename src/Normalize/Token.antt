-- ===== src/Normalize/Token.antt =====
-- Placeholder tokens of internal/normalize/url.go: toSnake and lastIdent. A name is read as ASCII: any
-- other character counts as no letter.
pub mod Snake
use api_integrity_tool.Base.{
  ℕ, suc, zero, ◌+◌, ◌-◌, Bool, true, false, not, ◌&&◌, ◌||◌, Option, none, some, List, [], ◌∷◌,
  ◌++◌, if◌then◌else◌, ltb, leb, ◌==◌, length, any, map, Str, codes, str_eq, has_prefix, has_suffix,
  contains, is_empty, lower, trim_space, trim_prefix, trim_suffix, trim, after_last, to_lower,
}
use api_integrity_tool.Normalize.Squeeze.{squeeze}

unfoldable pub is_upper : ℕ → Bool
is_upper c = leb b'A' c && leb c b'Z'

unfoldable pub is_lower : ℕ → Bool
is_lower c = leb b'a' c && leb c b'z'

unfoldable pub is_digit : ℕ → Bool
is_digit c = leb b'0' c && leb c b'9'

-- The function that strings.Map applies, on ASCII: unicode.IsLetter and unicode.IsDigit also hold of
-- letters and digits beyond it, which Go would keep.
unfoldable pub word_char : ℕ → ℕ
unfolding is_upper is_lower is_digit
word_char c = if is_upper c || (is_lower c || (is_digit c || c == b'_')) then c else b'_'

unfoldable pub starts_lower : Str → Bool
unfolding is_lower
starts_lower [] = false
starts_lower (c ∷ s) = is_lower c

-- Whether an underscore goes before the capital `c`, behind `prev` and before `next`.
unfoldable pub breaks : ℕ → ℕ → Str → Bool
unfolding is_upper is_lower is_digit starts_lower
breaks prev c next =
    is_upper c && (is_lower prev || (is_digit prev || is_upper prev && starts_lower next))

-- The loop over the characters behind the first.
unfoldable pub snake_loop : ℕ → Str → Str
unfolding breaks lower
snake_loop prev [] = []
snake_loop prev (c ∷ s) =
    let rest = lower c ∷ snake_loop c s in if breaks prev c s then b'_' ∷ rest else rest

unfoldable pub snake_words : Str → Str
unfolding snake_loop lower
snake_words [] = []
snake_words (c ∷ s) = lower c ∷ snake_loop c s

-- The loop over the noise suffixes, which leaves after the first that fits.
unfoldable pub trim_noise : List Str → Str → Str
unfolding has_suffix trim_suffix
trim_noise [] out = out
trim_noise (suf ∷ sufs) out =
    let rest = trim_noise sufs out in
    if has_suffix out suf && ltb (length suf) (length out) then trim_suffix out suf else rest

abbrev pub noise : List Str
noise = codes "_str" ∷ codes "_string" ∷ codes "_param" ∷ codes "_value" ∷ []

-- toSnake, for an ASCII name
unfoldable pub to_snake : Str → Str
unfolding word_char snake_words squeeze trim_noise trim trim_prefix trim_space
to_snake s =
    let words = snake_words (map word_char (trim_prefix (trim_space s) (codes "_"))) in
    let out = trim_noise noise (trim (λ c. c == b'_') (squeeze b'_' words)) in
    if is_empty out then codes "expr" else out

-- lastIdent
unfoldable pub last_ident : Str → Str
unfolding after_last trim_suffix trim_space
last_ident name =
    let s = trim_suffix (trim_space name) (codes "()") in
    let tail =
      after_last (λ c. c == b'.' || (c == b':' || (c == b'>' || (c == b'[' || c == b']')))) s in
    if is_empty tail then s else tail

-- isPositionalVerb
unfoldable pub is_positional_verb : Str → Bool
is_positional_verb [] = false
is_positional_verb (c ∷ s) = c == b'%' || (c == b'{' || c == b'$')
