-- ===== src/Base/Strings.antt =====
-- Go's functions that take a text apart: strings.Split, Cut, LastIndex, Trim and their like.
pub mod Pieces
pub mod Ends
use Prim.Native.Nat.{ℕ}
use mathlib.Core.Path.{◌≡◌, refl, ap, sym, ◌∙◌, subst}
use mathlib.Core.Logic.{◌≢◌, ◌⊎◌, inl, inr}
use mathlib.Core.Bool.{Bool, true, false}
use mathlib.Core.Option.{Option, none, some}
use mathlib.Core.List.{
  List, [], ◌∷◌, ◌++◌, reverse, reverse_aux, reverse-append, reverse-reverse, append_assoc,
}
use native.Mathlib.Omega.{arith}
use api_integrity_tool.Base.Tests.{◌==◌, if◌then◌else◌, Bool-cases}
use api_integrity_tool.Base.Lists.{All, All-append}
use api_integrity_tool.Base.Text.{
  Str, has_prefix, has_suffix, join, is_space, skip_space, trim_space, is_empty,
}

abbrev pub push_first : ℕ → List Str → List Str
push_first c [] = (c ∷ []) ∷ []
push_first c (w ∷ ws) = (c ∷ w) ∷ ws

-- strings.Split(s, sep) for a separator of one byte
unfoldable pub split : ℕ → Str → List Str
split sep [] = [] ∷ []
split sep (c ∷ s) = let rest = split sep s in if c == sep then [] ∷ rest else push_first c rest

-- The text before the first byte that passes the test, and the text from that byte on.
unfoldable pub before_any : (ℕ → Bool) → Str → Str
before_any p [] = []
before_any p (c ∷ s) = let rest = c ∷ before_any p s in if p c then [] else rest

unfoldable pub from_any : (ℕ → Bool) → Str → Str
from_any p [] = []
from_any p (c ∷ s) = let rest = from_any p s in if p c then c ∷ s else rest

-- The text after the last byte that passes the test; the whole text when none does.
unfoldable pub after_last : (ℕ → Bool) → Str → Str
unfolding before_any
after_last p s = reverse (before_any p (reverse s))

abbrev pub drop_first : Str → Str
drop_first [] = []
drop_first (c ∷ s) = s

-- The text up to the last `c`, which it includes.
unfoldable pub upto_last : ℕ → Str → Str
unfolding from_any
upto_last c s = reverse (from_any (λ d. d == c) (reverse s))

-- The text before the last `c`.
unfoldable pub before_last : ℕ → Str → Str
unfolding from_any
before_last c s = reverse (drop_first (from_any (λ d. d == c) (reverse s)))

abbrev pub drop_length : Str → Str → Str
drop_length [] s = s
drop_length (c ∷ p) [] = []
drop_length (c ∷ p) (d ∷ s) = drop_length p s

abbrev pub cut_first : ℕ → Option (Str × Str) → Option (Str × Str)
cut_first c none = none
cut_first c (some (before, after)) = some (c ∷ before, after)

-- strings.Cut(s, sep), where `none` says that the separator is not there
unfoldable pub cut : Str → Str → Option (Str × Str)
unfolding has_prefix
cut sep [] = none
cut sep (c ∷ s) =
    let rest = cut_first c (cut sep s) in
    if has_prefix (c ∷ s) sep then some ([], drop_length sep (c ∷ s)) else rest

-- strings.TrimPrefix(s, p)
unfoldable pub trim_prefix : Str → Str → Str
unfolding has_prefix
trim_prefix s p = if has_prefix s p then drop_length p s else s

-- strings.TrimSuffix(s, p)
unfoldable pub trim_suffix : Str → Str → Str
unfolding has_suffix
trim_suffix s p = if has_suffix s p then reverse (drop_length p (reverse s)) else s

-- strings.TrimLeft(s, cutset)
unfoldable pub trim_left : (ℕ → Bool) → Str → Str
trim_left p [] = []
trim_left p (c ∷ s) = let rest = trim_left p s in if p c then rest else c ∷ s

-- strings.Trim(s, cutset)
unfoldable pub trim : (ℕ → Bool) → Str → Str
unfolding trim_left
trim p s = reverse (trim_left p (reverse (trim_left p s)))
