-- ===== src/Monitor/Tests.antt =====
-- The theorems on scores at concrete values.
use api_integrity_tool.Base.{◌≡◌, ◌≢◌, refl, ◌↔◌, ◌≤◌, ◌⊎◌, false, ltb, codes}
use api_integrity_tool.Base.{List, [], ◌∷◌, ◌++◌, Str, map, ℤ, pos}
use api_integrity_tool.Monitor.Samples.{fixed}
use api_integrity_tool.Monitor.Patch.{Line, Hunk, parse_hunk_header, parse_hunks}
use api_integrity_tool.Model.Severity.{breaking, risky, rank}
use api_integrity_tool.Monitor.FileClass.{classify, vendor, source, routes, spec, test}
use api_integrity_tool.Monitor.Score.{
  demote_breaking_below, demote_risky_below, cap, confidence, rate, rate_lem, cap_lem,
}

rate-test : rate fixed (codes "openapi.path_removed") breaking 90 0 50 ≡ (risky, 42)
unfolding rate
rate-test = refl

rate_lem_example :
    (rank breaking ≤ rank (rate fixed (codes "openapi.path_removed") breaking 90 0 50).0)
    × (((rate fixed (codes "openapi.path_removed") breaking 90 0 50).0 ≡ breaking)
        ↔ (breaking ≡ breaking)
          × (ltb (confidence fixed (codes "openapi.path_removed") 90 0 50) demote_breaking_below
              ≡ false))
    × (((rate fixed (codes "openapi.path_removed") breaking 90 0 50).0 ≢ risky)
        ⊎ (ltb (confidence fixed (codes "openapi.path_removed") 90 0 50) demote_risky_below
            ≡ false))
rate_lem_example = rate_lem fixed (codes "openapi.path_removed") breaking 90 0 50

cap_lem_example :
    ((cap breaking risky ≡ breaking) ⊎ (cap breaking risky ≡ risky))
    × (rank breaking ≤ rank (cap breaking risky))
    × (rank risky ≤ rank (cap breaking risky))
cap_lem_example = cap_lem breaking risky

abbrev sample_patch : Str
sample_patch = codes "@@ -3,2 +3,2 @@" ++ 10 ∷ (codes " a" ++ 10 ∷ (codes "-b" ++ 10 ∷ codes "+c"))

parse_hunks-test :
    map {B = List (ℤ × ℤ)}
      (λ (h : Hunk). map {B = ℤ × ℤ} (λ (l : Line). (l.old_line, l.new_line)) h.lines)
      (parse_hunks sample_patch)
    ≡ ((pos 3, pos 3) ∷ (pos 4, pos 0) ∷ (pos 0, pos 4) ∷ []) ∷ []
unfolding parse_hunks
parse_hunks-test = refl

-- The heading after the ranges is read too, and an arrow in it sets the old start to 1.
arrow_resets : parse_hunk_header (codes "@@ -12,7 +12,9 @@ def f() -> int:") ≡ (pos 1, pos 12)
unfolding parse_hunk_header
arrow_resets = refl

class-test :
    (classify (codes "web/vendor/api/openapi.yaml") ≡ vendor)
    × (classify (codes "docs/openapi.yaml") ≡ spec)
    × (classify (codes "app/routes/users.rb") ≡ source)
    × (classify (codes "config/routes.rb") ≡ routes)
    × (classify (codes "api/tests/openapi.go") ≡ test)
unfolding classify
class-test = (refl, refl, refl, refl, refl)

-- The names of the vendored folders with a capital letter are looked for in a text in small letters.
pods_are_source : classify (codes "Pods/AFNetworking/http.m") ≡ source
unfolding classify
pods_are_source = refl
