-- ===== src/Normalize/Segments.antt =====
-- The segments of internal/resolve/resolve.go, and the sentinels that internal/normalize/url.go puts in
-- the place of holes before it parses a URL.
use api_integrity_tool.Base.{
  ℕ, suc, zero, ◌+◌, ◌-◌, ◌*◌, ◌/◌, ◌%◌, Bool, true, false, not, ◌&&◌, Option, none, some, List, [],
  ◌∷◌, ◌++◌, if◌then◌else◌, ltb, length, Str, codes, has_prefix, drop_length, is_empty,
}
use api_integrity_tool.Normalize.Token.{is_digit}

-- A literal has its text; a hole has its symbol, its name and its source.
pub data Segment : Type 0 where
  literal : Str → Segment
  hole : Str → Str → Str → Segment

-- trimEmpty
unfoldable pub trim_empty : List Segment → List Segment
trim_empty [] = []
trim_empty (literal [] ∷ segs) = trim_empty segs
trim_empty (literal (c ∷ s) ∷ segs) = literal (c ∷ s) ∷ trim_empty segs
trim_empty (hole sym name src ∷ segs) = hole sym name src ∷ trim_empty segs

unfoldable pub itoa_loop : ℕ → ℕ → Str → Str
itoa_loop zero n out = out
itoa_loop (suc fuel) n out =
    let more = itoa_loop fuel (n / 10) ((48 + n % 10) ∷ out) in
    if ltb n 10 then (48 + n) ∷ out else more

-- strconv.Itoa of a number that is not negative
unfoldable pub itoa : ℕ → Str
unfolding itoa_loop
itoa n = itoa_loop (suc n) n []

abbrev pub sentinel_prefix : Str
sentinel_prefix = codes "aitxhole"

unfoldable pub leading_digits : Str → Str
unfolding is_digit
leading_digits [] = []
leading_digits (c ∷ s) = let rest = c ∷ leading_digits s in if is_digit c then rest else []

-- strconv.Atoi of digits, without its bound: only numbers below the count of holes matter.
unfoldable pub digits_value : ℕ → Str → ℕ
digits_value n [] = n
digits_value n (c ∷ s) = digits_value (n * 10 + (c - 48)) s

-- A match of sentinelRe at the start of the text: its digits.
unfoldable pub sentinel_at : Str → Option Str
unfolding has_prefix leading_digits
sentinel_at s =
    let digits = leading_digits (drop_length sentinel_prefix s) in
    if has_prefix s sentinel_prefix && not (is_empty digits) then some digits else none

-- What sentinelRe finds in a text: the text between the matches, and the digits of each match.
pub data Piece : Type 0 where
  text mark : Str → Piece

unfoldable pub flush : Str → List Piece
flush [] = []
flush (c ∷ s) = text (c ∷ s) ∷ []

-- `skip` bytes of a match are left, and `lit` was read since the last match.
unfoldable pub pieces_loop : ℕ → Str → Str → List Piece
unfolding flush sentinel_at
pieces_loop skip lit [] = flush lit
pieces_loop (suc skip) lit (c ∷ s) = pieces_loop skip lit s
pieces_loop zero lit (c ∷ s) = elim (sentinel_at (c ∷ s)) [
  | none ↦ pieces_loop zero (lit ++ c ∷ []) s
  | some digits ↦
      flush lit ++ mark digits ∷ pieces_loop (length sentinel_prefix + length digits - 1) [] s
]

unfoldable pub pieces : Str → List Piece
unfolding pieces_loop
pieces = pieces_loop zero []

-- sentinelRe.MatchString
unfoldable pub has_sentinel : Str → Bool
unfolding sentinel_at
has_sentinel [] = false
has_sentinel (c ∷ s) =
    let rest = has_sentinel s in elim (sentinel_at (c ∷ s)) [ none ↦ rest | some d ↦ true ]

abbrev pub nth_hole : ℕ → List Segment → Option Segment
nth_hole n [] = none
nth_hole zero (h ∷ holes) = some h
nth_hole (suc n) (h ∷ holes) = nth_hole n holes

-- The loop of mask, with the number of holes so far.
unfoldable pub mask_loop : ℕ → List Segment → Str × List Segment
unfolding itoa
mask_loop n [] = ([], [])
mask_loop n (literal s ∷ segs) = let rest = mask_loop n segs in (s ++ rest.0, rest.1)
mask_loop n (hole sym name src ∷ segs) =
    let rest = mask_loop (suc n) segs in
    (sentinel_prefix ++ (itoa n ++ rest.0), hole sym name src ∷ rest.1)

-- mask
unfoldable pub mask : List Segment → Str × List Segment
unfolding mask_loop
mask = mask_loop zero

abbrev pub no_hole : Segment
no_hole = hole [] [] []

unfoldable pub unmask_pieces : List Segment → List Piece → List Segment
unfolding digits_value
unmask_pieces holes [] = []
unmask_pieces holes (text s ∷ ps) = literal s ∷ unmask_pieces holes ps
unmask_pieces holes (mark digits ∷ ps) =
    elim (nth_hole (digits_value zero digits) holes) [ none ↦ no_hole | some h ↦ h ]
    ∷ unmask_pieces holes ps

-- unmaskToSegments
unfoldable pub unmask_to_segments : Str → List Segment → List Segment
unfolding pieces unmask_pieces
unmask_to_segments masked holes = unmask_pieces holes (pieces masked)
