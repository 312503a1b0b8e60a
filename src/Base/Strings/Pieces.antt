-- ===== src/Base/Strings/Pieces.antt =====
-- strings.Split and strings.Join: each undoes the other, and what holds of a text holds of its pieces.
use Prim.Native.Nat.{ℕ}
use mathlib.Core.Path.{◌≡◌, refl, ap, sym, ◌∙◌, subst}
use mathlib.Core.Logic.{◌≢◌, inl, inr}
use mathlib.Core.List.{List, [], ◌∷◌, ◌++◌}
use native.Mathlib.Omega.{arith}
use api_integrity_tool.Base.Tests.{◌==◌, Bool-cases}
use api_integrity_tool.Base.Lists.{All, All-append}
use api_integrity_tool.Base.Text.{Str, join}
use api_integrity_tool.Base.Strings.{split}

split-cons : (sep : ℕ) (s : Str) → (w : Str) × (ws : List Str) × (split sep s ≡ w ∷ ws)
unfolding split
split-cons sep [] = ([], [], refl)
split-cons sep (c ∷ s) =
    let (w, ws, e) = split-cons sep s in
    elim (Bool-cases (c == sep)) [
      | inl t ↦ ([], w ∷ ws, rw (t, e))
      | inr t ↦ (c ∷ w, ws, rw (t, e))
    ]

join-push_first :
    (sep : Str) (c : ℕ) (w : Str) (ws : List Str) → join sep ((c ∷ w) ∷ ws) ≡ c ∷ join sep (w ∷ ws)
unfolding join
join-push_first sep c w [] = refl
join-push_first sep c w (v ∷ ws) = refl

-- The pieces of two texts with a separator between them.
pub split-append : (sep : ℕ) (s t : Str) → split sep (s ++ sep ∷ t) ≡ split sep s ++ split sep t
unfolding split
split-append sep [] t = ground arith
split-append sep (c ∷ s) t =
    let (w, ws, e) = split-cons sep s in
    elim (Bool-cases (c == sep)) [
      | inl f ↦ rw (f, split-append sep s t) refl
      | inr f ↦ rw (f, split-append sep s t, e) refl
    ]

-- Joining the pieces of a text gives the text.
pub join-split : (sep : ℕ) (s : Str) → join (sep ∷ []) (split sep s) ≡ s
unfolding join split
join-split sep [] = refl
join-split sep (c ∷ s) =
    let (w, ws, e) = split-cons sep s in
    let ih : join (sep ∷ []) (w ∷ ws) ≡ s = ap (join (sep ∷ [])) (sym e) ∙ join-split sep s in
    elim (Bool-cases (c == sep)) [
      | inl t ↦ rw (t, e) (ground (arith, ih))
      | inr t ↦ rw (t, e) (join-push_first (sep ∷ []) c w ws ∙ ap (λ (r : Str). c ∷ r) ih)
    ]

-- Each piece lacks the separator.
pub All-split : (sep : ℕ) (s : Str) → All (All (λ c. c ≢ sep)) (split sep s)
unfolding split
All-split sep [] = (tt, tt)
All-split sep (c ∷ s) =
    let (w, ws, e) = split-cons sep s in
    let ih = subst (All (All (λ c. c ≢ sep))) e (All-split sep s) in
    elim (Bool-cases (c == sep)) [
      | inl t ↦ rw (t, e) (tt, ih)
      | inr t ↦ rw (t, e) ((ground (arith, t), ih.0), ih.1)
    ]

-- What holds of each byte of a text holds of each byte of its pieces.
pub All-split_keeps : (P : ℕ → Type 0) (sep : ℕ) (s : Str) → All P s → All (All P) (split sep s)
unfolding split
All-split_keeps P sep [] h = (tt, tt)
All-split_keeps P sep (c ∷ s) h =
    let (w, ws, e) = split-cons sep s in
    let ih = subst (All (All P)) e (All-split_keeps P sep s h.1) in
    elim (Bool-cases (c == sep)) [
      | inl t ↦ rw (t, e) (tt, ih)
      | inr t ↦ rw (t, e) ((h.0, ih.0), ih.1)
    ]

pub All-join :
    (P : ℕ → Type 0) (sep : Str) (ws : List Str) → All P sep → All (All P) ws → All P (join sep ws)
unfolding join
All-join P sep [] hs h = tt
All-join P sep (w ∷ []) hs h = h.0
All-join P sep (w ∷ v ∷ ws) hs h =
    All-append P w _ h.0 (All-append P sep _ hs (All-join P sep (v ∷ ws) hs h.1))

split-piece :
    (sep : ℕ) (w s : Str) → All (λ c. c ≢ sep) w → split sep (w ++ sep ∷ s) ≡ w ∷ split sep s
unfolding split
split-piece sep [] s h = ground arith
split-piece sep (c ∷ w) s h = ground (arith, h.0, split-piece sep w s h.1)

pub split-last : (sep : ℕ) (w : Str) → All (λ c. c ≢ sep) w → split sep w ≡ w ∷ []
unfolding split
split-last sep [] h = refl
split-last sep (c ∷ w) h = ground (arith, h.0, split-last sep w h.1)

-- Splitting what was joined gives the pieces, if there is one and none has the separator.
pub split-join :
    (sep : ℕ) (w : Str) (ws : List Str)
    → All (All (λ c. c ≢ sep)) (w ∷ ws)
    → split sep (join (sep ∷ []) (w ∷ ws)) ≡ w ∷ ws
unfolding join
split-join sep w [] h = split-last sep w h.0
split-join sep w (v ∷ ws) h =
    split-piece sep w (join (sep ∷ []) (v ∷ ws)) h.0
    ∙ ap (λ (r : List Str). w ∷ r) (split-join sep v ws h.1)
