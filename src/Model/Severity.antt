-- ===== src/Model/Severity.antt =====
-- `Severity` of internal/model/model.go: its rank, comparison and parsing.
use api_integrity_tool.Base.{
  ℕ, ◌≡◌, ◌↔◌, Bool, true, false, Option, none, some, arith, leb, ltb, if◌then◌else◌, Str, codes,
  str_eq, str_eq_iff, to_lower, trim_space, IsOrder,
}

-- The Go type is a string: the three constants, and any other text.
pub data Severity : Type 0 where
  breaking risky info : Severity
  other : Str → Severity

-- Severity.Rank: the most severe first
unfoldable pub rank : Severity → ℕ
rank breaking = 0
rank risky = 1
rank _ = 2

-- Severity.AtLeast
unfoldable pub at_least : Severity → Severity → Bool
unfolding rank
at_least s min = leb (rank s) (rank min)

-- a == b
unfoldable pub severity_eq : Severity → Severity → Bool
severity_eq breaking breaking = true
severity_eq risky risky = true
severity_eq info info = true
severity_eq (other s) (other t) = str_eq s t
severity_eq _ _ = false

-- ParseSeverity: `none` is the error
unfoldable pub parse_severity : Str → Option Severity
unfolding to_lower trim_space
parse_severity text =
    let name = to_lower (trim_space text) in
    if str_eq name (codes "")
    then some info
    else if str_eq name (codes "info")
    then some info
    else if str_eq name (codes "risky")
    then some risky
    else if str_eq name (codes "breaking")
    then some breaking
    else none

-- One of the three constants.
abbrev pub IsKnown : Severity → Type 0
IsKnown (other s) = ⊥
IsKnown _ = Unit

pub severity_eq_iff : (a b : Severity) → (severity_eq a b ≡ true) ↔ (a ≡ b)
unfolding severity_eq
severity_eq_iff (other s) (other t) = ground (arith, str_eq_iff s t)
severity_eq_iff breaking b = ground arith
severity_eq_iff risky b = ground arith
severity_eq_iff info b = ground arith
severity_eq_iff (other s) b = ground arith

-- The constants are ordered by rank. Two other texts have one rank, so the rest is not.
pub severity-IsOrder : IsOrder IsKnown severity_eq (λ a b. ltb (rank a) (rank b))
unfolding rank
severity-IsOrder = record {
  eq_iff = severity_eq_iff;
  irrefl = λ a. ground arith;
  trans = λ a b c h k. ground arith;
  total = λ a b qa qb h k. ground arith;
}
