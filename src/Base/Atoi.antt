-- ===== src/Base/Atoi.antt =====
-- strconv.Atoi on a 64-bit machine.
use Prim.Native.Nat.{ℕ, suc, ◌+◌, ◌-◌, ◌*◌}
use mathlib.Core.Bool.{Bool, true, false, ◌&&◌}
use mathlib.Core.Option.{Option, none, some}
use mathlib.Core.List.{[], ◌∷◌}
use api_integrity_tool.Base.Tests.{ltb, leb, ◌==◌, if◌then◌else◌}
use api_integrity_tool.Base.Text.{Str}
use api_integrity_tool.Base.Int.{ℤ, pos, negsuc}

-- What is one too large for an int.
abbrev pub int_limit : ℕ
int_limit = 9223372036854775808

unfoldable pub decimal_value : ℕ → Str → Option ℕ
decimal_value n [] = some n
decimal_value n (c ∷ s) =
    let rest = decimal_value (n * 10 + (c - 48)) s in if leb 48 c && leb c 57 then rest else none

unfoldable pub positive_int : Str → ℤ × Bool
unfolding decimal_value
positive_int [] = (pos 0, false)
positive_int (c ∷ s) = elim (decimal_value 0 (c ∷ s)) [
  | none ↦ (pos 0, false)
  | some n ↦ if ltb n int_limit then (pos n, true) else (pos (int_limit - 1), false)
]

unfoldable pub negative_int : Str → ℤ × Bool
unfolding decimal_value
negative_int [] = (pos 0, false)
negative_int (c ∷ s) = elim (decimal_value 0 (c ∷ s)) [
  | none ↦ (pos 0, false)
  | some n ↦
      if n == 0
      then (pos 0, true)
      else if ltb n (suc int_limit)
      then (negsuc (n - 1), true)
      else (negsuc (int_limit - 1), false)
]

-- The value that strconv.Atoi returns, and whether it returns no error: the value is 0 for a text that
-- is no number, and the nearest int for a number out of range.
unfoldable pub read_int : Str → ℤ × Bool
unfolding positive_int negative_int
read_int [] = (pos 0, false)
read_int (c ∷ s) =
    if c == b'-' then negative_int s else if c == b'+' then positive_int s else positive_int (c ∷ s)
