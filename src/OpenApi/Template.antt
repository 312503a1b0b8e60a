-- ===== src/OpenApi/Template.antt =====
-- normalizeTemplate of internal/monitor/analyze/openapi/diff.go: the leftmost matches of the regular
-- expression \{[^/}]*\} are replaced by {}.
use api_integrity_tool.Base.{
  ◌≡◌, refl, sym, ◌≢◌, ◌∙◌, Bool, true, false, ◌&&◌, [], ◌∷◌, ◌++◌, arith, if◌then◌else◌, ◌==◌, Str,
}

-- Whether a `}` comes before any `/`: then a `{` in front begins a match.
unfoldable pub closes : Str → Bool
closes [] = false
closes (c ∷ s) =
    let rest = closes s in if c == b'}' then true else if c == b'/' then false else rest

-- `inside` is true while the text of a match is skipped, up to its `}`.
template_loop : Bool → Str → Str
unfolding closes
template_loop inside [] = []
template_loop true (c ∷ s) =
    let done = b'}' ∷ template_loop false s in
    let rest = template_loop true s in if c == b'}' then done else rest
template_loop false (c ∷ s) =
    let skip = b'{' ∷ template_loop true s in
    let rest = c ∷ template_loop false s in if c == b'{' && closes s then skip else rest

-- normalizeTemplate
unfoldable pub normalize_template : Str → Str
unfolding template_loop
normalize_template = template_loop false

mutual
  unfolding template_loop closes

  closes-outside : (s : Str) → closes (template_loop false s) ≡ closes s
  closes-outside [] = refl
  closes-outside (c ∷ s) = ground (arith, closes-outside s, closes-inside s)

  closes-inside : (s : Str) → closes s ≡ true → closes (template_loop true s) ≡ true
  closes-inside [] h = h
  closes-inside (c ∷ s) h = ground (arith, closes-outside s, closes-inside s)

mutual
  unfolding template_loop closes

  outside_twice : (s : Str) → template_loop false (template_loop false s) ≡ template_loop false s
  outside_twice [] = refl
  outside_twice (c ∷ s) =
      ground (arith, outside_twice s, inside_twice s, closes-outside s, closes-inside s)

  inside_twice :
      (s : Str) → closes s ≡ true → template_loop true (template_loop true s) ≡ template_loop true s
  inside_twice [] h = refl
  inside_twice (c ∷ s) h = ground (arith, outside_twice s, inside_twice s)

-- A parameter name: it has neither a `}` nor a `/`.
abbrev pub IsName : Str → Type 0
IsName [] = Unit
IsName (c ∷ s) = (c ≢ b'}') × (c ≢ b'/') × IsName s

closes-name : (a s : Str) → IsName a → closes (a ++ b'}' ∷ s) ≡ true
unfolding closes
closes-name [] s n = refl
closes-name (c ∷ a) s n = ground (arith, closes-name a s n.2)

inside-name :
    (a s : Str) → IsName a → template_loop true (a ++ b'}' ∷ s) ≡ b'}' ∷ template_loop false s
unfolding template_loop
inside-name [] s n = refl
inside-name (c ∷ a) s n = ground (arith, inside-name a s n.2)

module _ (a b s : Str) (na : IsName a) (nb : IsName b) where
  closes_renamed :
      (pre : Str) → closes (pre ++ b'{' ∷ (a ++ b'}' ∷ s)) ≡ closes (pre ++ b'{' ∷ (b ++ b'}' ∷ s))
  unfolding closes
  closes_renamed [] = closes-name a s na ∙ sym (closes-name b s nb)
  closes_renamed (c ∷ pre) = ground (arith, closes_renamed pre)

  loop_renamed :
      (inside : Bool) (pre : Str)
      → template_loop inside (pre ++ b'{' ∷ (a ++ b'}' ∷ s))
        ≡ template_loop inside (pre ++ b'{' ∷ (b ++ b'}' ∷ s))
  unfolding template_loop
  loop_renamed true [] = inside-name a s na ∙ sym (inside-name b s nb)
  loop_renamed false [] =
      rw (closes-name a s na, closes-name b s nb, inside-name a s na, inside-name b s nb)
  loop_renamed true (c ∷ pre) = ground (arith, loop_renamed true pre, loop_renamed false pre)
  loop_renamed false (c ∷ pre) =
      ground (arith, loop_renamed true pre, loop_renamed false pre, closes_renamed pre)

-- A template is its own template, and renaming one path parameter, wherever it stands in the path,
-- does not change the template, if both names have neither a `}` nor a `/`.
pub normalize_template_lem :
    (p pre a b s : Str)
    → IsName a
    → IsName b
    → (normalize_template (normalize_template p) ≡ normalize_template p)
      × (normalize_template (pre ++ b'{' ∷ (a ++ b'}' ∷ s))
          ≡ normalize_template (pre ++ b'{' ∷ (b ++ b'}' ∷ s)))
unfolding normalize_template
normalize_template_lem p pre a b s na nb = (outside_twice p, loop_renamed a b s na nb false pre)
