-- ===== src/Normalize/Build/Plain.antt =====
-- What a path of internal/normalize/url.go cannot hold: a query or a fragment.
use api_integrity_tool.Base.{
  ℕ, suc, zero, ◌+◌, ◌/◌, ◌%◌, refl, Bool, ◌||◌, List, [], ◌∷◌, ◌++◌, ltb, All, All-append, Str,
  codes, str_eq, has_suffix, is_empty, split, before_any, from_any, arith, Bool-cases, inl, inr,
  All-split_keeps, All-join, before_any-All, from_any-All, trim_space,
}
use api_integrity_tool.Normalize.Token.{is_lower, is_digit, to_snake, last_ident}
use api_integrity_tool.Normalize.Token.Snake.{IsTokenChar, to_snake-All}
use api_integrity_tool.Normalize.Ids.{
  PathVar, Options, is_fixed, is_id, collapse_loop, collapse_id_segments,
}
use api_integrity_tool.Normalize.Segments.{Segment, literal, hole, itoa_loop, itoa}
use api_integrity_tool.Normalize.Build.{
  is_query, split_query, literal_head, Building, is_wide, wide_tail, is_positional, hole_token,
  add_token, build_segment, build_loop, is_last_of, started, build_path,
}
use api_integrity_tool.Normalize.Build.Cleaned.{IsPlain, clean_path-All}

-- The literals have no query.
abbrev IsCut : Segment → Type 0
IsCut (literal s) = All IsPlain s
IsCut (hole sym name src) = Unit

literal_head-All : (s : Str) → All IsPlain s → All IsCut (literal_head s)
literal_head-All [] h = tt
literal_head-All (c ∷ s) h = (h, tt)

split_query-All : (segs : List Segment) → All IsCut (split_query segs).0
unfolding split_query
split_query-All [] = tt
split_query-All (hole sym name src ∷ segs) = (tt, split_query-All segs)
split_query-All (literal s ∷ segs) = elim (Bool-cases (is_empty (from_any is_query s))) [
  | inl e ↦ rw e (from_any-All is_query s e, split_query-All segs)
  | inr e ↦ rw e (literal_head-All (before_any is_query s) (before_any-All is_query s))
]

token-IsPlain : (s : Str) → All IsTokenChar s → All IsPlain s
unfolding is_lower is_digit
token-IsPlain [] h = tt
token-IsPlain (c ∷ s) h = (ground (arith, h.0), token-IsPlain s h.1)

itoa_loop-All : (fuel n : ℕ) (out : Str) → All IsPlain out → All IsPlain (itoa_loop fuel n out)
unfolding itoa_loop
itoa_loop-All zero n out h = h
itoa_loop-All (suc fuel) n out h = elim (Bool-cases (ltb n 10)) [
  | inl e ↦ rw e (ground (arith, e), h)
  | inr e ↦ rw e (itoa_loop-All fuel (n / 10) ((48 + n % 10) ∷ out) (ground arith, h))
]

hole_token-All : (name : Str) (positional : ℕ) → All IsPlain (hole_token name positional)
unfolding hole_token itoa
hole_token-All name positional = elim (Bool-cases (is_positional name)) [
  | inl e ↦ rw e (
    refl,
    (
      refl,
      All-append IsPlain _ (codes "}") (itoa_loop-All (suc (positional + 1)) (positional + 1) [] tt)
          (refl, tt),
    ),
  )
  | inr e ↦ rw e (
    refl,
    All-append IsPlain (to_snake (last_ident name)) (codes "}")
        (token-IsPlain _ (to_snake-All (last_ident name)).1) (refl, tt),
  )
]

wide_tail-All :
    (name source : Str) (b : Building)
    → All IsPlain b.out
    → All IsPlain (wide_tail name source b).out
unfolding wide_tail
wide_tail-All name source b h = elim (Bool-cases (has_suffix b.out (codes "/"))) [
  | inl e ↦ rw e (All-append IsPlain b.out (codes "**") h (refl, (refl, tt)))
  | inr e ↦ rw e (
      All-append IsPlain (b.out ++ codes "/") (codes "**")
        (All-append IsPlain b.out (codes "/") h (refl, tt)) (refl, (refl, tt)))
]

build_segment-All :
    (s : Segment) (is_last : Bool) (b : Building)
    → IsCut s
    → All IsPlain b.out
    → All IsPlain (build_segment s is_last b).out
unfolding build_segment add_token
build_segment-All (literal s) is_last b k h = All-append IsPlain b.out s h k
build_segment-All (hole sym name src) is_last b k h =
    elim (Bool-cases (is_wide (trim_space name) is_last)) [
      | inl e ↦ rw e (wide_tail-All (trim_space name) name b h)
      | inr e ↦ rw e (All-append IsPlain b.out _ h (hole_token-All (trim_space name) b.positional))
    ]

build_loop-All :
    (segs : List Segment) (b : Building)
    → All IsCut segs
    → All IsPlain b.out
    → All IsPlain (build_loop segs b).out
unfolding build_loop
build_loop-All [] b k h = h
build_loop-All (s ∷ segs) b k h =
    build_loop-All segs (build_segment s (is_last_of segs) b) k.1
      (build_segment-All s (is_last_of segs) b k.0 h)

collapse_loop-All :
    (opts : Options) (parts : List Str)
    → All (All IsPlain) parts
    → All (All IsPlain) (collapse_loop opts parts).0
unfolding collapse_loop
collapse_loop-All opts [] h = tt
collapse_loop-All opts (s ∷ parts) h =
    let rest = collapse_loop-All opts parts h.1 in
    elim (Bool-cases (is_fixed s)) [
      | inl e ↦ rw e (h.0, rest)
      | inr e ↦ elim (Bool-cases (is_id opts s)) [
        | inl f ↦ rw (e, f) ((refl, (refl, (refl, (refl, tt)))), rest)
        | inr f ↦ rw (e, f) (h.0, rest)
      ]
    ]

collapse_id_segments-All :
    (p : Str) (opts : Options) (flags : List Str) (vars : List PathVar)
    → All IsPlain p
    → All IsPlain (collapse_id_segments p opts flags vars).0
unfolding collapse_id_segments
collapse_id_segments-All p opts flags vars h =
    elim (Bool-cases (str_eq p (codes "/") || str_eq p [])) [
      | inl e ↦ rw e h
      | inr e ↦ rw e (
          All-join IsPlain (codes "/") _ (refl, tt)
            (collapse_loop-All opts (split b'/' p) (All-split_keeps IsPlain b'/' p h)))
    ]

-- The path that buildPath makes has neither a `?` nor a `#`, so nothing of a query or a fragment is
-- in it, whatever the segments are.
pub build_path-IsPlain :
    (segs : List Segment) (opts : Options) (flags : List Str)
    → All IsPlain (build_path segs opts flags).path
unfolding build_path started
build_path-IsPlain segs opts flags =
    let b = build_loop-All (split_query segs).0 (started flags) (split_query-All segs) tt in
    collapse_id_segments-All _ opts _ _ (clean_path-All _ _ _ b)
