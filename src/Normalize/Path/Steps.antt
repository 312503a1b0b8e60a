-- ===== src/Normalize/Path/Steps.antt =====
-- The segments that pathCleanKeepRoot keeps.
use api_integrity_tool.Base.{
  ◌≡◌, ◌≢◌, false, ◌||◌, List, [], ◌∷◌, ◌++◌, All, All-append, Str, codes, str_eq, str_eq_iff,
  arith, Bool-cases, inl, inr,
}
use api_integrity_tool.Normalize.Path.{drop_last, resolve_dots}

-- A path segment: not empty, with no slash.
abbrev pub IsPiece : Str → Type 0
IsPiece s = (s ≢ []) × All (λ c. c ≢ b'/') s

-- A segment that stands for itself.
abbrev pub IsStep : Str → Type 0
IsStep s = IsPiece s × (s ≢ codes ".") × (s ≢ codes "..")

All-drop_last : (ws : List Str) → All IsStep ws → All IsStep (drop_last ws)
All-drop_last [] h = tt
All-drop_last (w ∷ []) h = tt
All-drop_last (w ∷ v ∷ ws) h = (h.0, All-drop_last (v ∷ ws) h.1)

is_step :
    (s : Str)
    → All (λ c. c ≢ b'/') s
    → (str_eq s (codes ".") || str_eq s []) ≡ false
    → str_eq s (codes "..") ≡ false
    → IsStep s
is_step s h e f = (
  ((λ g. ground (arith, str_eq_iff s [], g)), h),
  (λ g. ground (arith, str_eq_iff s (codes "."), g)),
  λ g. ground (arith, str_eq_iff s (codes ".."), g),
)

pub resolve_dots-All :
    (out parts : List Str)
    → All IsStep out
    → All (All (λ c. c ≢ b'/')) parts
    → All IsStep (resolve_dots out parts)
unfolding resolve_dots
resolve_dots-All out [] h k = h
resolve_dots-All out (s ∷ parts) h k = elim (Bool-cases (str_eq s (codes ".") || str_eq s [])) [
  | inl e ↦ rw e (resolve_dots-All out parts h k.1)
  | inr e ↦ elim (Bool-cases (str_eq s (codes ".."))) [
    | inl f ↦ rw (e, f) (resolve_dots-All (drop_last out) parts (All-drop_last out h) k.1)
    | inr f ↦
        rw (e, f)
          (resolve_dots-All (out ++ s ∷ []) parts
            (All-append IsStep out (s ∷ []) h (is_step s k.0 e f, tt)) k.1)
  ]
]

pub All-IsPiece : (ws : List Str) → All IsStep ws → All IsPiece ws
All-IsPiece [] h = tt
All-IsPiece (w ∷ ws) h = (h.0.0, All-IsPiece ws h.1)
