-- ===== src/Upstream/WellKnown/Lookup.antt =====
-- LookupWellKnown of internal/upstream/wellknown.go against two searches of the table.
use api_integrity_tool.Base.{
  ◌≡◌, refl, Option, none, some, List, [], ◌∷◌, find_first, Str, to_lower, trim_space, arith,
  Bool-cases, Option-cases,
}
use api_integrity_tool.Upstream.WellKnown.{
  WellKnown, is_exact, is_wildcard, or_first, lookup_loop, lookup_well_known,
}

-- The first value that there is.
abbrev pub or_else : Option WellKnown → Option WellKnown → Option WellKnown
or_else none o = o
or_else (some w) o = some w

lookup_loop-find_first :
    (h : Str) (wildcard : Option WellKnown) (table : List WellKnown)
    → lookup_loop h wildcard table
      ≡ or_else
          (find_first (is_exact h) table)
          (or_else wildcard (find_first (is_wildcard h) table))
unfolding lookup_loop
lookup_loop-find_first h none [] = refl
lookup_loop-find_first h (some w) [] = refl
lookup_loop-find_first h wildcard (e ∷ table) = ground (
  arith,
  Bool-cases (is_exact h e),
  Bool-cases (is_wildcard h e),
  Option-cases wildcard,
  Option-cases (find_first (is_exact h) table),
  lookup_loop-find_first h wildcard table,
  lookup_loop-find_first h (or_first wildcard e) table,
)

-- The entry of a host is the first whose pattern is the host, and without one the first whose wildcard
-- takes the host, wherever the two stand in the table.
pub lookup_well_known_lem :
    (table : List WellKnown) (host : Str)
    → lookup_well_known table host
      ≡ or_else
          (find_first (is_exact (to_lower (trim_space host))) table)
          (find_first (is_wildcard (to_lower (trim_space host))) table)
unfolding lookup_well_known
lookup_well_known_lem table host = lookup_loop-find_first (to_lower (trim_space host)) none table
