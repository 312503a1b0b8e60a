-- ===== src/Monitor/Match/Hits.antt =====
-- MatchText of internal/monitor/target.go: what a target that it returns has.
use api_integrity_tool.Base.{
  ℕ, ◌≤◌, ◌≡◌, refl, Bool, true, false, not, ◌&&◌, Bool-cases, inl, inr, List, [], ◌∷◌, All,
  All-keep, All-keep-test, All-sort_by, str_eq, split, trim, ◌==◌, any, keep, map, length, leb, Str,
  codes, contains, has_prefix, is_empty, trim_space, if◌then◌else◌, arith, sort_by,
  sort_by-IsSortedBy, IsSortedBy, Laws, Laws-key, str-IsOrder,
}
use api_integrity_tool.Index.Calls.{Call}
use api_integrity_tool.Monitor.Match.{
  Target, is_distinctive, new_target, is_named, one_per_id, id_less, match_text, variants_of,
}

abbrev pub IsSubstantial : Str → Type 0
IsSubstantial s = (4 ≤ length s) × (has_prefix s (codes "{") ≡ false)

-- A target of two segments at least that the line names by a distinctive one.
abbrev pub IsHit : Str → Target → Type 0
IsHit line t =
    (2 ≤ length t.segments)
    × (any (λ d. contains line d) t.distinctive ≡ true)
    × All IsSubstantial t.distinctive

both : (a b : Bool) → (a && b) ≡ true → (a ≡ true) × (b ≡ true)
both true b h = (refl, h)
both false b h = cc

no_brace : (a b : Bool) → (not a && b) ≡ true → a ≡ false
no_brace true b h = cc
no_brace false b h = refl

from_leb : (n : ℕ) (s : Str) → leb n (length s) ≡ true → n ≤ length s
from_leb n s h = ground (arith, h)

substantial : (s : Str) → is_distinctive s ≡ true → IsSubstantial s
unfolding is_distinctive
substantial s h =
    let (long, rest) = both (leb 4 (length s)) _ h in
    let (plain, braces) = both _ _ rest in
    (from_leb 4 s long, no_brace (has_prefix s (codes "{")) _ braces)

IsSubstantial-All : (ss : List Str) → All (λ s. is_distinctive s ≡ true) ss → All IsSubstantial ss
IsSubstantial-All [] h = tt
IsSubstantial-All (s ∷ ss) h = (substantial s h.0, IsSubstantial-All ss h.1)

two_segments : (ss : List Str) → leb 2 (length ss) ≡ true → 2 ≤ length ss
two_segments ss h = ground (arith, h)

named : (line : Str) (c : Call) → is_named line (new_target c) ≡ true → IsHit line (new_target c)
unfolding is_named new_target
named line c h =
    let segs = keep (λ s. not (is_empty s)) (split b'/' (trim (λ d. d == b'/') c.path)) in
    let (spelled, rest) =
      both (any (λ v. leb 2 (length v) && contains line v) (variants_of c.path)) _ h in
    let (two, distinct) = both (leb 2 (length segs)) _ rest in
    (
      two_segments segs two,
      distinct,
      IsSubstantial-All (keep is_distinctive segs) (All-keep-test is_distinctive segs),
    )

hits-All :
    (line : Str) (calls : List Call)
    → All (IsHit line) (keep (is_named line) (map new_target calls))
hits-All line [] = tt
hits-All line (c ∷ calls) = elim (Bool-cases (is_named line (new_target c))) [
  | inl e ↦ rw e (named line c e, hits-All line calls)
  | inr e ↦ rw e (hits-All line calls)
]

one_per_id-All :
    (line : Str) (ts : List Target) → All (IsHit line) ts → All (IsHit line) (one_per_id ts)
unfolding one_per_id
one_per_id-All line [] h = tt
one_per_id-All line (t ∷ ts) h = (
  h.0,
  All-keep (IsHit line) (λ u. not (str_eq t.id u.id)) (one_per_id ts) (one_per_id-All line ts h.1),
)

Laws-ids : Laws {0} (λ (t : Target). Unit) id_less
Laws-ids = Laws-key str-IsOrder (λ t. t.id) (λ a p. tt)

All-Unit : (ts : List Target) → All (λ (t : Target). Unit {0}) ts
All-Unit [] = tt
All-Unit (t ∷ ts) = (tt, All-Unit ts)

matched-All :
    (line : Str) (b : Bool) (ts : List Target)
    → All (IsHit line) ts
    → IsSortedBy id_less (if b then [] else sort_by id_less ts)
      × All (IsHit line) (if b then [] else sort_by id_less ts)
matched-All line true ts h = (tt, tt)
matched-All line false ts h =
    (sort_by-IsSortedBy id_less Laws-ids ts (All-Unit ts), All-sort_by id_less (IsHit line) ts h)

-- The endpoints that a line of upstream text is matched to are in the order of their ids, and each has at
-- least two segments and a distinctive segment that stands in the line; a distinctive segment has
-- at least four bytes and is no placeholder.
pub match_text-IsHit :
    (calls : List Call) (line : Str)
    → IsSortedBy id_less (match_text (map new_target calls) line)
      × All (IsHit line) (match_text (map new_target calls) line)
unfolding match_text
match_text-IsHit calls line =
    let named_ones = keep (is_named line) (map new_target calls) in
    matched-All line (is_empty (trim_space line)) (one_per_id named_ones)
      (one_per_id-All line named_ones (hits-All line calls))
