-- ===== src/Base/Strings/Ends.antt =====
-- The first and the last bytes of texts: suffixes, and what trimming keeps.
use Prim.Native.Nat.{ℕ}
use mathlib.Core.Path.{◌≡◌, refl, ap, sym, ◌∙◌, subst}
use mathlib.Core.Logic.{◌≢◌, ◌⊎◌, inl, inr}
use mathlib.Core.Bool.{Bool, true, false}
use mathlib.Core.List.{
  [], ◌∷◌, ◌++◌, reverse, reverse_aux, reverse-append, reverse-reverse, append_assoc,
}
use native.Mathlib.Omega.{arith}
use api_integrity_tool.Base.Tests.{◌==◌, Bool-cases}
use api_integrity_tool.Base.Lists.{All}
use api_integrity_tool.Base.Text.{
  Str, has_prefix, has_suffix, is_space, skip_space, trim_space, is_empty,
}
use api_integrity_tool.Base.Strings.{
  before_any, from_any, drop_length, cut, trim_suffix, trim_left, trim,
}

-- A text with a last byte.
pub snoc-cases : (s : Str) → (s ≡ []) ⊎ ((t : Str) × (c : ℕ) × (s ≡ t ++ c ∷ []))
snoc-cases [] = inl refl
snoc-cases (c ∷ s) = elim (snoc-cases s) [
  | inl e ↦ inr ([], c, ap (λ (r : Str). c ∷ r) e)
  | inr (t, d, e) ↦ inr (c ∷ t, d, ap (λ (r : Str). c ∷ r) e)
]

pub has_suffix-snoc : (t : Str) (c d : ℕ) → has_suffix (t ++ c ∷ []) (d ∷ []) ≡ (c == d)
unfolding has_suffix has_prefix
has_suffix-snoc t c d = rw (reverse-append t (c ∷ [])) (ground arith)

pub trim_suffix-snoc : (t : Str) (c : ℕ) → trim_suffix (t ++ c ∷ []) (c ∷ []) ≡ t
unfolding trim_suffix has_suffix has_prefix
trim_suffix-snoc t c = rw (reverse-append t (c ∷ [])) (ground (arith, reverse-reverse t))

pub has_suffix-append :
    (s t : Str) (c : ℕ) → t ≢ [] → has_suffix (s ++ t) (c ∷ []) ≡ has_suffix t (c ∷ [])
has_suffix-append s t c h = elim (snoc-cases t) [
  | inl e ↦ absurd (h e)
  | inr (u, d, e) ↦
      rw (e, ← append_assoc s u (d ∷ []))
        (has_suffix-snoc (s ++ u) d c ∙ sym (has_suffix-snoc u d c))
]

All-last : (P : ℕ → Type 0) (t : Str) (c : ℕ) → All P (t ++ c ∷ []) → P c
All-last P [] c h = h.0
All-last P (d ∷ t) c h = All-last P t c h.1

pub has_suffix-lacks : (s : Str) (c : ℕ) → All (λ d. d ≢ c) s → has_suffix s (c ∷ []) ≡ false
unfolding has_suffix has_prefix
has_suffix-lacks s c h = elim (snoc-cases s) [
  | inl e ↦ rw e refl
  | inr (t, d, e) ↦ rw e (
      has_suffix-snoc t d c
      ∙ ground (arith, All-last (λ x. x ≢ c) t d (subst (All (λ x. x ≢ c)) e h)))
]

All-reverse_aux : (P : ℕ → Type 0) (s t : Str) → All P s → All P t → All P (reverse_aux s t)
All-reverse_aux P [] t h k = k
All-reverse_aux P (c ∷ s) t h k = All-reverse_aux P s (c ∷ t) h.1 (h.0, k)

-- What holds of each byte of a text holds of each byte of its parts.
pub All-reverse : (P : ℕ → Type 0) (s : Str) → All P s → All P (reverse s)
All-reverse P s h = All-reverse_aux P s [] h tt

pub All-drop_length : (P : ℕ → Type 0) (p s : Str) → All P s → All P (drop_length p s)
All-drop_length P [] s h = h
All-drop_length P (c ∷ p) [] h = tt
All-drop_length P (c ∷ p) (d ∷ s) h = All-drop_length P p s h.1

pub All-trim_suffix : (P : ℕ → Type 0) (s p : Str) → All P s → All P (trim_suffix s p)
unfolding trim_suffix
All-trim_suffix P s p h = elim (Bool-cases (has_suffix s p)) [
  | inl e ↦ rw e (All-reverse P _ (All-drop_length P p (reverse s) (All-reverse P s h)))
  | inr e ↦ rw e h
]

All-trim_left : (P : ℕ → Type 0) (cut : ℕ → Bool) (s : Str) → All P s → All P (trim_left cut s)
unfolding trim_left
All-trim_left P cut [] h = tt
All-trim_left P cut (c ∷ s) h = elim (Bool-cases (cut c)) [
  | inl e ↦ rw e (All-trim_left P cut s h.1)
  | inr e ↦ rw e h
]

pub All-trim : (P : ℕ → Type 0) (cut : ℕ → Bool) (s : Str) → All P s → All P (trim cut s)
unfolding trim
All-trim P cut s h =
    All-reverse P _ (All-trim_left P cut _ (All-reverse P _ (All-trim_left P cut s h)))

All-skip_space : (P : ℕ → Type 0) (s : Str) → All P s → All P (skip_space s)
unfolding skip_space
All-skip_space P [] h = tt
All-skip_space P (c ∷ s) h = elim (Bool-cases (is_space c)) [
  | inl e ↦ rw e (All-skip_space P s h.1)
  | inr e ↦ rw e h
]

pub All-trim_space : (P : ℕ → Type 0) (s : Str) → All P s → All P (trim_space s)
unfolding trim_space
All-trim_space P s h = All-reverse P _ (All-skip_space P _ (All-reverse P _ (All-skip_space P s h)))

pub All-before_any : (P : ℕ → Type 0) (p : ℕ → Bool) (s : Str) → All P s → All P (before_any p s)
unfolding before_any
All-before_any P p [] h = tt
All-before_any P p (c ∷ s) h = elim (Bool-cases (p c)) [
  | inl e ↦ rw e tt
  | inr e ↦ rw e (h.0, All-before_any P p s h.1)
]

-- No byte before the first one that passes the test passes it.
pub before_any-All : (p : ℕ → Bool) (s : Str) → All (λ c. p c ≡ false) (before_any p s)
unfolding before_any
before_any-All p [] = tt
before_any-All p (c ∷ s) = elim (Bool-cases (p c)) [
  | inl e ↦ rw e tt
  | inr e ↦ rw e (e, before_any-All p s)
]

-- A text in which no byte passes the test.
pub from_any-All :
    (p : ℕ → Bool) (s : Str) → is_empty (from_any p s) ≡ true → All (λ c. p c ≡ false) s
unfolding from_any
from_any-All p [] h = tt
from_any-All p (c ∷ s) h = elim (Bool-cases (p c)) [
  | inl e ↦ absurd (ground (arith, e, h))
  | inr e ↦ (e, from_any-All p s (ground (arith, e, h)))
]
