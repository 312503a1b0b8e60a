-- ===== src/Normalize/Squeeze.antt =====
-- The loops of internal/normalize/url.go that halve a byte while it stands twice in a row: the slashes
-- of cleanPath and the underscores of toSnake.
use api_integrity_tool.Base.{
  ℕ, suc, zero, ◌≤◌, ◌<◌, ◌≡◌, ◌≢◌, refl, sym, ◌∙◌, Bool, true, false, ◌&&◌, [], ◌∷◌, if◌then◌else◌,
  ◌==◌, length, All, Str, contains, has_prefix, arith, Bool-cases, inl, inr,
}

-- strings.ReplaceAll(p, xx, x)
unfoldable pub halve : ℕ → Str → Str
halve x (c ∷ d ∷ s) =
    let pair = c ∷ halve x s in
    let rest = c ∷ halve x (d ∷ s) in if c == x && d == x then pair else rest
halve x (c ∷ []) = c ∷ []
halve x [] = []

-- The loop, on fuel.
unfoldable pub halve_loop : ℕ → ℕ → Str → Str
unfolding contains halve
halve_loop x zero p = p
halve_loop x (suc fuel) p =
    let again = halve_loop x fuel (halve x p) in if contains p (x ∷ x ∷ []) then again else p

-- Each round makes the text shorter, so its length is fuel enough.
unfoldable pub squeeze : ℕ → Str → Str
unfolding halve_loop
squeeze x p = halve_loop x (length p) p

-- One pass that drops `x` behind `x`; the flag says that one went before.
unfoldable pub single : ℕ → Bool → Str → Str
single x behind [] = []
single x behind (c ∷ s) =
    let dropped = single x true s in
    let rest = c ∷ single x (c == x) s in if behind && c == x then dropped else rest

-- The byte nowhere stands twice in a row.
abbrev pub IsSingle : ℕ → Str → Type 0
IsSingle x (c ∷ d ∷ s) = (c ≡ x → d ≢ x) × IsSingle x (d ∷ s)
IsSingle x (c ∷ []) = Unit
IsSingle x [] = Unit

pub double-IsSingle : (x : ℕ) (s : Str) → contains s (x ∷ x ∷ []) ≡ false → IsSingle x s
unfolding contains has_prefix
double-IsSingle x [] h = tt
double-IsSingle x (c ∷ []) h = tt
double-IsSingle x (c ∷ d ∷ s) h = (ground arith, double-IsSingle x (d ∷ s) (ground arith))

single-single :
    (x : ℕ) (behind : Bool) (s : Str)
    → contains s (x ∷ x ∷ []) ≡ false
    → (behind ≡ true → has_prefix s (x ∷ []) ≡ false)
    → single x behind s ≡ s
unfolding contains has_prefix single
single-single x behind [] h k = refl
single-single x behind (c ∷ []) h k = ground (arith, Bool-cases behind)
single-single x behind (c ∷ d ∷ s) h k =
    let ih = single-single x (c == x) (d ∷ s) (ground arith) (λ e. ground (arith, e)) in
    ground (arith, Bool-cases behind, ih)

halve-shorter : (x : ℕ) (s : Str) → length (halve x s) ≤ length s
unfolding halve
halve-shorter x [] = omega arith
halve-shorter x (c ∷ []) = omega arith
halve-shorter x (c ∷ d ∷ s) = ground (arith, halve-shorter x s, halve-shorter x (d ∷ s))

halve-lt : (x : ℕ) (s : Str) → contains s (x ∷ x ∷ []) ≡ true → length (halve x s) < length s
unfolding halve contains has_prefix
halve-lt x [] h = cc
halve-lt x (c ∷ []) h = ground arith
halve-lt x (c ∷ d ∷ s) h = ground (arith, halve-shorter x s, halve-lt x (d ∷ s))

single-halve : (x : ℕ) (behind : Bool) (s : Str) → single x behind (halve x s) ≡ single x behind s
unfolding halve single
single-halve x behind [] = refl
single-halve x behind (c ∷ []) = refl
single-halve x behind (c ∷ d ∷ s) = ground (
  arith,
  Bool-cases behind,
  single-halve x true s,
  single-halve x (c == x) (d ∷ s),
  single-halve x true (d ∷ s),
)

loop-single :
    (x : ℕ) (fuel : ℕ) (p : Str)
    → length p ≤ fuel
    → (halve_loop x fuel p ≡ single x false p)
      × (contains (halve_loop x fuel p) (x ∷ x ∷ []) ≡ false)
unfolding halve_loop single contains
loop-single x zero [] h = (refl, refl)
loop-single x zero (c ∷ p) h = absurd (omega arith)
loop-single x (suc fuel) p h = elim (Bool-cases (contains p (x ∷ x ∷ []))) [
  | inr e ↦ rw e (sym (single-single x false p e (λ (f : false ≡ true). cc)), e)
  | inl e ↦
      let ih = loop-single x fuel (halve x p) (omega (arith, halve-lt x p e)) in
      rw e (ih.0 ∙ single-halve x false p, ih.1)
]

-- The loop that halves a byte ends, with a text in which it nowhere stands twice in a row, and gives
-- what one pass gives that drops it wherever it stands behind itself.
pub squeeze_lem :
    (x : ℕ) (p : Str)
    → (squeeze x p ≡ single x false p) × (contains (squeeze x p) (x ∷ x ∷ []) ≡ false)
unfolding squeeze
squeeze_lem x p = loop-single x (length p) p (omega arith)

All-halve : (P : ℕ → Type 0) (x : ℕ) (s : Str) → All P s → All P (halve x s)
unfolding halve
All-halve P x [] h = tt
All-halve P x (c ∷ []) h = h
All-halve P x (c ∷ d ∷ s) h = elim (Bool-cases (c == x && d == x)) [
  | inl e ↦ rw e (h.0, All-halve P x s h.1.1)
  | inr e ↦ rw e (h.0, All-halve P x (d ∷ s) h.1)
]

All-halve_loop : (P : ℕ → Type 0) (x fuel : ℕ) (s : Str) → All P s → All P (halve_loop x fuel s)
unfolding halve_loop
All-halve_loop P x zero s h = h
All-halve_loop P x (suc fuel) s h = elim (Bool-cases (contains s (x ∷ x ∷ []))) [
  | inl e ↦ rw e (All-halve_loop P x fuel (halve x s) (All-halve P x s h))
  | inr e ↦ rw e h
]

pub All-squeeze : (P : ℕ → Type 0) (x : ℕ) (s : Str) → All P s → All P (squeeze x s)
unfolding squeeze
All-squeeze P x s h = All-halve_loop P x (length s) s h
