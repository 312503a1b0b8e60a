-- ===== src/Normalize/Token/Snake.antt =====
-- The tokens that toSnake makes.
use api_integrity_tool.Base.{
  ℕ, ◌<◌, ◌≡◌, ◌≢◌, refl, true, ◌&&◌, ◌||◌, List, [], ◌∷◌, if◌then◌else◌, ltb, ◌==◌, length, map,
  All, Str, codes, is_empty, lower, has_suffix, trim_space, trim_prefix, trim, arith, Bool-cases,
  inl, inr, All-trim, All-trim_suffix,
}
use api_integrity_tool.Normalize.Squeeze.{squeeze, All-squeeze}
use api_integrity_tool.Normalize.Token.{
  is_upper, is_lower, is_digit, word_char, breaks, snake_loop, snake_words, trim_noise, noise,
  to_snake,
}

-- A small letter, a digit or an underscore.
abbrev pub IsTokenChar : ℕ → Type 0
IsTokenChar c = (is_lower c || (is_digit c || c == b'_')) ≡ true

abbrev IsWordChar : ℕ → Type 0
IsWordChar c = (is_upper c || (is_lower c || (is_digit c || c == b'_'))) ≡ true

word_char-All : (s : Str) → All IsWordChar (map word_char s)
unfolding word_char
word_char-All [] = tt
word_char-All (c ∷ s) = (
  ground (arith, Bool-cases (is_upper c || (is_lower c || (is_digit c || c == b'_')))),
  word_char-All s,
)

lower-IsTokenChar : (c : ℕ) → IsWordChar c → IsTokenChar (lower c)
unfolding lower is_upper is_lower is_digit
lower-IsTokenChar c h = ground arith

underscore-IsTokenChar : IsTokenChar b'_'
unfolding is_lower is_digit
underscore-IsTokenChar = refl

snake_loop-All : (prev : ℕ) (s : Str) → All IsWordChar s → All IsTokenChar (snake_loop prev s)
unfolding snake_loop
snake_loop-All prev [] h = tt
snake_loop-All prev (c ∷ s) h =
    let head = lower-IsTokenChar c h.0 in
    let rest = snake_loop-All c s h.1 in
    elim (Bool-cases (breaks prev c s)) [
      | inl e ↦ rw e (underscore-IsTokenChar, (head, rest))
      | inr e ↦ rw e (head, rest)
    ]

snake_words-All : (s : Str) → All IsWordChar s → All IsTokenChar (snake_words s)
unfolding snake_words
snake_words-All [] h = tt
snake_words-All (c ∷ s) h = (lower-IsTokenChar c h.0, snake_loop-All c s h.1)

trim_noise-All :
    (sufs : List Str) (out : Str) → All IsTokenChar out → All IsTokenChar (trim_noise sufs out)
unfolding trim_noise
trim_noise-All [] out h = h
trim_noise-All (suf ∷ sufs) out h =
    elim (Bool-cases (has_suffix out suf && ltb (length suf) (length out))) [
      | inl e ↦ rw e (All-trim_suffix IsTokenChar out suf h)
      | inr e ↦ rw e (trim_noise-All sufs out h)
    ]

expr-All : All IsTokenChar (codes "expr")
unfolding is_lower is_digit
expr-All = (refl, (refl, (refl, (refl, tt))))

or_expr :
    (out : Str)
    → All IsTokenChar out
    → ((if is_empty out then codes "expr" else out) ≢ [])
      × All IsTokenChar (if is_empty out then codes "expr" else out)
or_expr [] h = ((λ e. cc), expr-All)
or_expr (c ∷ out) h = ((λ e. cc), h)

pub to_snake-All : (s : Str) → (to_snake s ≢ []) × All IsTokenChar (to_snake s)
unfolding to_snake
to_snake-All s =
    let words = snake_words (map word_char (trim_prefix (trim_space s) (codes "_"))) in
    let start = snake_words-All _ (word_char-All (trim_prefix (trim_space s) (codes "_"))) in
    let kept = trim_noise-All noise (trim (λ c. c == b'_') (squeeze b'_' words)) (
      All-trim IsTokenChar (λ c. c == b'_') (squeeze b'_' words)
        (All-squeeze IsTokenChar b'_' words start)) in
    or_expr (trim_noise noise (trim (λ c. c == b'_') (squeeze b'_' words))) kept

-- The name of a placeholder made of an ASCII text is never empty, and it has only small letters, digits and
-- underscores: it cannot hold a slash, a brace or a query.
pub to_snake_lem :
    (s : Str) → All (λ c. c < 128) s → (to_snake s ≢ []) × All IsTokenChar (to_snake s)
to_snake_lem s ascii = to_snake-All s
