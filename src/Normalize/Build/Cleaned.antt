-- ===== src/Normalize/Build/Cleaned.antt =====
-- cleanPath of internal/normalize/url.go adds no query and no fragment to a path.
use api_integrity_tool.Base.{
  ℕ, ◌≡◌, refl, Bool, false, not, ◌&&◌, ◌||◌, List, [], ◌∷◌, ◌++◌, ltb, ◌==◌, All, All-append, Str,
  codes, str_eq, contains, has_prefix, is_empty, split, trim_suffix, arith, Bool-cases, inl, inr,
  All-split_keeps, All-join, All-trim_suffix, length,
}
use api_integrity_tool.Normalize.Squeeze.{All-squeeze}
use api_integrity_tool.Normalize.Path.{
  is_hex, upper_hex, upper_loop, upper_percent_escapes, rooted, drop_last, resolve_dots,
  path_clean_keep_root, has_dots, without_dots, trim_slash, clean_path,
}
use api_integrity_tool.Normalize.Build.{is_query}

-- No `?` and no `#`.
abbrev pub IsPlain : ℕ → Type 0
IsPlain c = is_query c ≡ false

upper_hex-IsPlain : (c : ℕ) → IsPlain c → IsPlain (upper_hex c)
unfolding upper_hex
upper_hex-IsPlain c h = ground arith

-- Each part of cleanPath keeps a text plain.
upper_loop-All : (s : Str) → All IsPlain s → All IsPlain (upper_loop s)
unfolding upper_loop
upper_loop-All [] h = tt
upper_loop-All (c ∷ []) h = h
upper_loop-All (c ∷ d ∷ []) h = h
upper_loop-All (c ∷ d ∷ e ∷ s) h = elim (Bool-cases (c == b'%' && (is_hex d && is_hex e))) [
  | inl t ↦
      rw t
        (h.0, (upper_hex-IsPlain d h.1.0, (upper_hex-IsPlain e h.1.1.0, upper_loop-All s h.1.1.1)))
  | inr t ↦ rw t (h.0, upper_loop-All (d ∷ e ∷ s) h.1)
]

upper_percent_escapes-All : (s : Str) → All IsPlain s → All IsPlain (upper_percent_escapes s)
unfolding upper_percent_escapes
upper_percent_escapes-All s h = elim (Bool-cases (not (contains s (codes "%")))) [
  | inl e ↦ rw e h
  | inr e ↦ rw e (upper_loop-All s h)
]

rooted-All : (p : Str) → All IsPlain p → All IsPlain (rooted p)
unfolding rooted
rooted-All p h = elim (Bool-cases (has_prefix p (codes "/"))) [
  | inl e ↦ rw e h
  | inr e ↦ rw e (refl, h)
]

drop_last-All : (ws : List Str) → All (All IsPlain) ws → All (All IsPlain) (drop_last ws)
drop_last-All [] h = tt
drop_last-All (w ∷ []) h = tt
drop_last-All (w ∷ v ∷ ws) h = (h.0, drop_last-All (v ∷ ws) h.1)

resolve_dots-IsPlain :
    (out parts : List Str)
    → All (All IsPlain) out
    → All (All IsPlain) parts
    → All (All IsPlain) (resolve_dots out parts)
unfolding resolve_dots
resolve_dots-IsPlain out [] h k = h
resolve_dots-IsPlain out (s ∷ parts) h k = elim (Bool-cases (str_eq s (codes ".") || str_eq s [])) [
  | inl e ↦ rw e (resolve_dots-IsPlain out parts h k.1)
  | inr e ↦ elim (Bool-cases (str_eq s (codes ".."))) [
    | inl f ↦ rw (e, f) (resolve_dots-IsPlain (drop_last out) parts (drop_last-All out h) k.1)
    | inr f ↦
        rw (e, f)
          (resolve_dots-IsPlain (out ++ s ∷ []) parts
            (All-append (All IsPlain) out (s ∷ []) h (k.0, tt)) k.1)
  ]
]

without_dots-All :
    (p : Str) (had_hole : Bool) (flags : List Str)
    → All IsPlain p
    → All IsPlain (without_dots p had_hole flags).0
unfolding without_dots path_clean_keep_root
without_dots-All p had_hole flags h =
    let cleaned =
      All-join IsPlain (codes "/") (resolve_dots [] (split b'/' p)) (refl, tt)
        (resolve_dots-IsPlain [] (split b'/' p) tt (All-split_keeps IsPlain b'/' p h)) in
    elim (Bool-cases (not had_hole && has_dots p)) [
      | inr e ↦ rw e h
      | inl e ↦ elim (Bool-cases (not (str_eq (path_clean_keep_root p) p))) [
        | inr f ↦ rw (e, f) h
        | inl f ↦ rw (e, f) (refl, cleaned)
      ]
    ]

trim_slash-All : (p : Str) (trailing : Bool) → All IsPlain p → All IsPlain (trim_slash p trailing)
unfolding trim_slash
trim_slash-All p trailing h =
    let cut = All-trim_suffix IsPlain p (codes "/") h in
    elim (Bool-cases (trailing && ltb 1 (length p))) [
      | inr e ↦ rw e h
      | inl e ↦ elim (Bool-cases (is_empty (trim_suffix p (codes "/")))) [
        | inl f ↦ rw (e, f) (refl, tt)
        | inr f ↦ rw (e, f) cut
      ]
    ]

pub clean_path-All :
    (p : Str) (had_hole : Bool) (flags : List Str)
    → All IsPlain p
    → All IsPlain (clean_path p had_hole flags).0
unfolding clean_path
clean_path-All [] had_hole flags h = (refl, tt)
clean_path-All (c ∷ s) had_hole flags h =
    let p = rooted-All _ (All-squeeze IsPlain b'/' _ (upper_percent_escapes-All (c ∷ s) h)) in
    trim_slash-All _ _ (without_dots-All _ had_hole flags p)
