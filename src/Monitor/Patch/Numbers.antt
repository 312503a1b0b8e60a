-- ===== src/Monitor/Patch/Numbers.antt =====
-- The line numbers that ParseHunks gives to the lines of a hunk.
use api_integrity_tool.Base.{
  ◌≡◌, ℕ, Option, none, some, List, [], ◌∷◌, if◌then◌else◌, All, ◌==◌, ℤ, pos, negsuc, suc, zero,
  ◌-◌, int_limit,
}
use api_integrity_tool.Monitor.Patch.{Line, Hunk, Reading, next}

-- One more. The int behind the largest is the smallest.
abbrev pub one_more : ℤ → ℤ
one_more (pos n) = if n == int_limit - 1 then negsuc (int_limit - 1) else pos (suc n)
one_more (negsuc zero) = pos 0
one_more (negsuc (suc n)) = negsuc n

-- The counter of one side after the line: a line that `other` marks is not on this side.
abbrev pub after : (ℤ → ℤ) → ℕ → Line → ℤ → ℤ
after step other l n = if l.kind == other then n else step n

abbrev pub shown : ℕ → Line → ℤ → ℤ
shown other l n = if l.kind == other then pos 0 else n

-- Each line has the number of its place on both sides, counted by `step` from `o` and `n`, and zero on
-- the side that it does not stand on.
abbrev pub IsNumbered : (ℤ → ℤ) → ℤ → ℤ → List Line → Type 0
IsNumbered step o n [] = Unit
IsNumbered step o n (l ∷ ls) =
    (l.old_line ≡ shown b'+' l o)
    × (l.new_line ≡ shown b'-' l n)
    × IsNumbered step (after step b'+' l o) (after step b'-' l n) ls

abbrev pub HasNumbers : (ℤ → ℤ) → Hunk → Type 0
HasNumbers step h = IsNumbered step h.old_start h.new_start h.lines

-- The counters after the lines.
count : ℕ → ℤ → List Line → ℤ
count other n [] = n
count other n (l ∷ ls) = count other (after next other l n) ls

-- The counters of the loop are those after the lines of the hunk.
abbrev At : ℤ → ℤ → Hunk → Type 0
At o n h =
    HasNumbers next h × (count b'+' h.old_start h.lines ≡ o) × (count b'-' h.new_start h.lines ≡ n)

abbrev Keeps : Option Hunk → ℤ → ℤ → Type 0
Keeps none o n = Unit
Keeps (some h) o n = At o n h

abbrev IsReading : Reading → Type 0
IsReading r = All (HasNumbers next) r.done × Keeps r.current r.old_at r.new_at
