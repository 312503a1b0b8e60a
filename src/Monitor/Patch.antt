-- ===== src/Monitor/Patch.antt =====
-- internal/monitor/analyze/diff.go: the hunks of a unified diff, with the line numbers of both sides.
pub mod Numbers
use api_integrity_tool.Base.{
  int_limit, read_int, ℕ, ◌≡◌, refl, ◌+◌, ◌-◌, ◌*◌, ◌||◌, ◌&&◌, Bool, true, false, not, Option,
  none, some, List, [], ◌∷◌, ◌++◌, if◌then◌else◌, Bool-cases, inl, inr, All, All-append, arith, ltb,
  leb, ◌==◌, length, Str, codes, has_prefix, is_empty, is_space, ℤ, pos, negsuc,
}

pub record Line : Type 0 where
  pub kind : ℕ
  pub text : Str
  pub old_line : ℤ
  pub new_line : ℤ

pub record Hunk : Type 0 where
  pub header : Str
  pub old_start : ℤ
  pub new_start : ℤ
  pub lines : List Line

-- n + 1, which wraps around
unfoldable pub next : ℤ → ℤ
next (pos n) = if n + 1 == int_limit then negsuc (int_limit - 1) else pos (n + 1)
next (negsuc n) = if n == 0 then pos 0 else negsuc (n - 1)

-- strings.Split(s, "\n"): the first piece and the others
unfoldable pub split_lines : Str → Str × List Str
split_lines [] = ([], [])
split_lines (c ∷ s) =
    let rest = split_lines s in if c == 10 then ([], rest.0 ∷ rest.1) else (c ∷ rest.0, rest.1)

-- The text before the first comma.
unfoldable pub before_comma : Str → Str
before_comma [] = []
before_comma (c ∷ s) = let rest = c ∷ before_comma s in if c == b',' then [] else rest

-- strings.Fields on ASCII; `word` is what was read of the current field.
unfoldable pub fields_from : Str → Str → List Str
unfolding is_space
fields_from word [] = if is_empty word then [] else word ∷ []
fields_from word (c ∷ s) =
    let onward = fields_from (word ++ c ∷ []) s in
    let fresh = fields_from [] s in
    if not (is_space c) then onward else if is_empty word then fresh else word ∷ fresh

-- leadingInt
unfoldable pub leading_int : Str → ℤ
unfolding read_int before_comma
leading_int s = (read_int (before_comma s)).0

-- The loop of parseHunkHeader over the fields; the pair is (oldStart, newStart).
unfoldable pub header_loop : ℤ × ℤ → List Str → ℤ × ℤ
unfolding leading_int
header_loop starts [] = starts
header_loop starts ((c ∷ d ∷ s) ∷ fields) =
    header_loop
      (if c == b'-'
        then (leading_int (d ∷ s), starts.1)
        else if c == b'+'
        then (starts.0, leading_int (d ∷ s))
        else starts)
      fields
header_loop starts (field ∷ fields) = header_loop starts fields

one_for_zero : ℤ → ℤ
one_for_zero (pos n) = if n == 0 then pos 1 else pos n
one_for_zero (negsuc n) = negsuc n

-- parseHunkHeader
unfoldable pub parse_hunk_header : Str → ℤ × ℤ
unfolding header_loop fields_from one_for_zero
parse_hunk_header h =
    let starts = header_loop (pos 0, pos 0) (fields_from [] h) in
    (one_for_zero starts.0, one_for_zero starts.1)

-- The loop variables of ParseHunks: the hunks before the current one, the current one, and the
-- counters oldLine and newLine.
pub record Reading : Type 0 where
  pub done : List Hunk
  pub current : Option Hunk
  pub old_at : ℤ
  pub new_at : ℤ

abbrev pub with_current : List Hunk → Option Hunk → List Hunk
with_current done none = done
with_current done (some h) = done ++ h ∷ []

unfoldable pub hunks : Reading → List Hunk
hunks r = with_current r.done r.current

unfoldable pub open_hunk : Str → Reading → Reading
unfolding parse_hunk_header hunks
open_hunk raw r =
    let starts = parse_hunk_header raw in
    record {
      done = hunks r;
      current =
          some (record { header = raw; old_start = starts.0; new_start = starts.1; lines = [] });
      old_at = starts.0;
      new_at = starts.1;
    }

-- A new line of the current hunk.
unfoldable pub add_line : Hunk → Line → Hunk
add_line h l = record h { lines = h.lines ++ l ∷ [] }

unfoldable pub removed_line : Str → Hunk → Reading → Reading
unfolding add_line next
removed_line text h r = record r {
  current =
      some
        (add_line h (record { kind = b'-'; text = text; old_line = r.old_at; new_line = pos 0 }));
  old_at = next r.old_at;
}

unfoldable pub added_line : Str → Hunk → Reading → Reading
unfolding add_line next
added_line text h r = record r {
  current =
      some
        (add_line h (record { kind = b'+'; text = text; old_line = pos 0; new_line = r.new_at }));
  new_at = next r.new_at;
}

unfoldable pub context_line : Str → Hunk → Reading → Reading
unfolding add_line next
context_line text h r = record r {
  current =
      some
        (add_line h (record { kind = 32; text = text; old_line = r.old_at; new_line = r.new_at }));
  old_at = next r.old_at;
  new_at = next r.new_at;
}

-- A line of the patch inside a hunk.
unfoldable pub body_line : Str → Hunk → Reading → Reading
unfolding removed_line added_line context_line
body_line [] h r = r
body_line (c ∷ text) h r =
    if c == b'-'
    then removed_line text h r
    else if c == b'+'
    then added_line text h r
    else if c == 32
    then context_line text h r
    else if c == 92
    then r
    else context_line (c ∷ text) h r

-- A line before the first hunk is skipped.
abbrev pub in_hunk : Str → Option Hunk → Reading → Reading
in_hunk raw none r = r
in_hunk raw (some h) r = body_line raw h r

-- One round of the loop of ParseHunks.
unfoldable pub read_line : Str → Reading → Reading
unfolding open_hunk body_line has_prefix
read_line raw r = if has_prefix raw (codes "@@") then open_hunk raw r else in_hunk raw r.current r

unfoldable pub read_lines : List Str → Reading → Reading
unfolding read_line
read_lines [] r = r
read_lines (raw ∷ raws) r = read_lines raws (read_line raw r)

abbrev pub nothing_read : Reading
nothing_read = record { done = []; current = none; old_at = pos 0; new_at = pos 0 }

-- ParseHunks
unfoldable pub parse_hunks : Str → List Hunk
unfolding split_lines read_lines hunks
parse_hunks [] = []
parse_hunks (c ∷ s) =
    let pieces = split_lines (c ∷ s) in hunks (read_lines (pieces.0 ∷ pieces.1) nothing_read)
