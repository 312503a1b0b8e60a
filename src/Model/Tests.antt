-- ===== src/Model/Tests.antt =====
-- The theorems on the domain types at concrete findings, and tests of their functions.
use api_integrity_tool.Base.{
  ◌≡◌, refl, ◌+◌, false, some, none, List, [], ◌∷◌, codes, str_eq, length, Perm, keep,
}
use api_integrity_tool.Model.Severity.{breaking, risky, severity_eq, parse_severity}
use api_integrity_tool.Model.Repo.{canonical, key}
use api_integrity_tool.Model.Finding.{
  Finding, open_status, muted, sort_findings, count_by_severity, visible,
}
use api_integrity_tool.Model.Finding.Display.{
  IsShownInOrder, sort_findings_lem, count_by_severity_lem,
}
use api_integrity_tool.Model.Samples.{billing_repo, sample_finding}

abbrev two_findings : List Finding
two_findings =
    sample_finding (codes "fp_a") risky open_status
    ∷ sample_finding (codes "fp_b") breaking open_status
    ∷ []

sort_findings_lem_example :
    Perm (sort_findings two_findings) two_findings × IsShownInOrder (sort_findings two_findings)
sort_findings_lem_example = sort_findings_lem two_findings (tt, (tt, tt))

count_by_severity_lem_example :
    ((count_by_severity two_findings).breaking
      ≡ length (keep (λ f. severity_eq f.severity breaking) two_findings))
    × ((count_by_severity two_findings).risky
        ≡ length (keep (λ f. severity_eq f.severity risky) two_findings))
    × ((count_by_severity two_findings).breaking
          + (count_by_severity two_findings).risky
          + (count_by_severity two_findings).info
        ≡ length two_findings)
    × ((count_by_severity two_findings).total ≡ length two_findings)
count_by_severity_lem_example = count_by_severity_lem two_findings

sorts_by_severity :
    sort_findings two_findings
    ≡ sample_finding (codes "fp_b") breaking open_status
      ∷ sample_finding (codes "fp_a") risky open_status
      ∷ []
unfolding sort_findings
sorts_by_severity = refl

parses_severity : parse_severity (codes " Breaking ") ≡ some breaking
unfolding parse_severity str_eq
parses_severity = refl

rejects_severity : parse_severity (codes "fatal") ≡ none
unfolding parse_severity str_eq
rejects_severity = refl

renders_repo : canonical billing_repo ≡ codes "https://github.com/Acme/billing"
unfolding canonical
renders_repo = refl

folds_key : key billing_repo ≡ codes "github|github.com|acme|billing|"
unfolding key
folds_key = refl

mute_without_end_hides : visible (sample_finding (codes "fp_a") risky muted) 9 ≡ false
unfolding visible
mute_without_end_hides = refl
