-- ===== src/Normalize/Path/Dots.antt =====
-- Dot segments: what pathCleanKeepRoot leaves.
use api_integrity_tool.Base.{
  ◌≡◌, ◌≢◌, refl, ap, sym, ◌∙◌, false, ◌||◌, List, [], ◌∷◌, ◌++◌, All, Str, codes, str_eq,
  str_eq_iff, join, split, split-join, All-split, arith,
}
use api_integrity_tool.Normalize.Path.{resolve_dots, path_clean_keep_root}
use api_integrity_tool.Normalize.Path.Steps.{IsStep, resolve_dots-All}
use api_integrity_tool.Base.{split-append, split-last}
use api_integrity_tool.Normalize.Path.{drop_last}
use mathlib.Core.List.{append_assoc, append-nil}

IsStep-test : (s : Str) → IsStep s → (str_eq s (codes ".") || str_eq s []) ≡ false
IsStep-test s h = ground (arith, str_eq_iff s (codes "."), str_eq_iff s [], h.0.0, h.1)

-- Segments that stand for themselves are all kept.
resolve_dots-steps : (out ws : List Str) → All IsStep ws → resolve_dots out ws ≡ out ++ ws
unfolding resolve_dots
resolve_dots-steps out [] h = sym (append-nil out)
resolve_dots-steps out (w ∷ ws) h =
    let dots : str_eq w (codes "..") ≡ false = ground (arith, str_eq_iff w (codes ".."), h.0.2) in
    rw (IsStep-test w h.0, dots)
      (resolve_dots-steps (out ++ w ∷ []) ws h.1 ∙ append_assoc out (w ∷ []) ws)

All-lacks : (ws : List Str) → All IsStep ws → All (All (λ c. c ≢ b'/')) ws
All-lacks [] h = tt
All-lacks (w ∷ ws) h = (h.0.0.1, All-lacks ws h.1)

split-root :
    (ws : List Str) → All IsStep ws → resolve_dots [] (split b'/' (b'/' ∷ join (codes "/") ws)) ≡ ws
unfolding split resolve_dots join str_eq
split-root [] h = refl
split-root (w ∷ ws) h =
    rw (split-join b'/' w ws (All-lacks (w ∷ ws) h)) (resolve_dots-steps [] (w ∷ ws) h)

no_dots : (ws : List Str) → All IsStep ws → All (λ s. (s ≢ codes ".") × (s ≢ codes "..")) ws
no_dots [] h = tt
no_dots (w ∷ ws) h = ((h.0.1, h.0.2), no_dots ws h.1)

split_steps :
    (ws : List Str)
    → All IsStep ws
    → All (λ s. (s ≢ codes ".") × (s ≢ codes "..")) (split b'/' (b'/' ∷ join (codes "/") ws))
unfolding split join
split_steps [] h = (((λ e. cc), λ e. cc), (((λ e. cc), λ e. cc), tt))
split_steps (w ∷ ws) h =
    rw (split-join b'/' w ws (All-lacks (w ∷ ws) h)) (((λ e. cc), λ e. cc), no_dots (w ∷ ws) h)

resolve_dots-append :
    (xs out ys : List Str) → resolve_dots out (xs ++ ys) ≡ resolve_dots (resolve_dots out xs) ys
unfolding resolve_dots
resolve_dots-append [] out ys = refl
resolve_dots-append (x ∷ xs) out ys = resolve_dots-append xs _ ys

drop_last-snoc : (ws : List Str) (w : Str) → drop_last (ws ++ w ∷ []) ≡ ws
drop_last-snoc [] w = refl
drop_last-snoc (v ∷ []) w = refl
drop_last-snoc (v ∷ u ∷ ws) w = ap (λ (r : List Str). v ∷ r) (drop_last-snoc (u ∷ ws) w)

-- A segment and a `..` behind it go together.
resolve_dots-pair :
    (out : List Str) (w : Str) (ws : List Str)
    → IsStep w
    → resolve_dots out (w ∷ codes ".." ∷ ws) ≡ resolve_dots out ws
unfolding resolve_dots str_eq
resolve_dots-pair out w ws h =
    let dots : str_eq w (codes "..") ≡ false = ground (arith, str_eq_iff w (codes ".."), h.2) in
    rw (IsStep-test w h, dots) (ap (λ (o : List Str). resolve_dots o ws) (drop_last-snoc out w))

-- The resolution of a path whose first part is `a` and whose rest is `b`.
after_part :
    (a b : Str)
    → path_clean_keep_root (a ++ b'/' ∷ b)
      ≡ b'/' ∷ join (codes "/") (resolve_dots (resolve_dots [] (split b'/' a)) (split b'/' b))
unfolding path_clean_keep_root
after_part a b = rw (split-append b'/' a b) (
    ap (λ (ws : List Str). b'/' ∷ join (codes "/") ws)
      (resolve_dots-append (split b'/' a) [] (split b'/' b)))

abbrev rooted_join : List Str → Str
rooted_join ws = b'/' ∷ join (codes "/") ws

split-pair :
    (w b : Str) → IsStep w → split b'/' (w ++ (codes "/../" ++ b)) ≡ w ∷ codes ".." ∷ split b'/' b
unfolding split
split-pair w b h =
    split-append b'/' w (codes "../" ++ b)
    ∙ ap (λ (ws : List Str). ws ++ codes ".." ∷ split b'/' b) (split-last b'/' w h.0.1)

-- To resolve the dot segments of a path removes each `.`, and each `..` with the segment in front of
-- it, wherever they stand; a `..` at the root is dropped, a path of plain segments is kept as it is,
-- and no dot segment is left.
pub path_clean_keep_root_lem :
    (a b w : Str)
    → IsStep w
    → (path_clean_keep_root (a ++ b'/' ∷ (w ++ (codes "/../" ++ b)))
        ≡ path_clean_keep_root (a ++ b'/' ∷ b))
      × (path_clean_keep_root (a ++ b'/' ∷ (codes "./" ++ b))
          ≡ path_clean_keep_root (a ++ b'/' ∷ b))
      × (path_clean_keep_root (codes "/../" ++ b) ≡ path_clean_keep_root (b'/' ∷ b))
      × ((ws : List Str)
          → All IsStep ws
          → path_clean_keep_root (b'/' ∷ join (codes "/") ws) ≡ b'/' ∷ join (codes "/") ws)
      × All (λ s. (s ≢ codes ".") × (s ≢ codes "..")) (split b'/' (path_clean_keep_root a))
unfolding path_clean_keep_root split resolve_dots str_eq
path_clean_keep_root_lem a b w h =
    let ws = resolve_dots [] (split b'/' a) in
    let steps = resolve_dots-All [] (split b'/' a) tt (All-split b'/' a) in
    (
      after_part a (w ++ (codes "/../" ++ b))
          ∙ ap rooted_join
              (ap (resolve_dots ws) (split-pair w b h) ∙ resolve_dots-pair ws w (split b'/' b) h)
          ∙ sym (after_part a b),
      after_part a (codes "./" ++ b) ∙ sym (after_part a b),
      refl,
      λ vs k. ap rooted_join (split-root vs k),
      split_steps ws steps,
    )
