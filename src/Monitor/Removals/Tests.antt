-- ===== src/Monitor/Removals/Tests.antt =====
-- The theorems on matched and removed lines at concrete values, and tests of the functions.
use api_integrity_tool.Base.{
  ◌≤◌, ◌≡◌, refl, true, false, List, [], ◌∷◌, ◌++◌, All, IsSortedBy, map, Str, codes,
}
use api_integrity_tool.Model.Severity.{Severity, risky, info, rank}
use api_integrity_tool.Monitor.Samples.{symbolic_call, fixed}
use api_integrity_tool.Monitor.Source.{FileChange}
use api_integrity_tool.Monitor.Match.{Target, new_target, variants_of, id_less, match_text}
use api_integrity_tool.Monitor.Match.Hits.{IsHit, match_text-IsHit}
use api_integrity_tool.Monitor.Announce.{is_comment_line, mentions_breaking_change, major_bump}
use api_integrity_tool.Monitor.Removals.{Removal, count_id, analyze_diff}
use api_integrity_tool.Monitor.Removals.Capped.{analyze_diff_lem}

variants-test :
    variants_of (codes "/u/{id}")
    ≡ codes "/u/{id}" ∷ codes "/u/:id" ∷ codes "/u/<id>" ∷ codes "/u/[id]" ∷ codes "/u/*" ∷ []
unfolding variants_of
variants-test = refl

match_text-IsHit_example :
    IsSortedBy id_less (match_text (map new_target (symbolic_call ∷ [])) (codes "GET /v1/charge"))
    × All
        (IsHit (codes "GET /v1/charge"))
        (match_text (map new_target (symbolic_call ∷ [])) (codes "GET /v1/charge"))
match_text-IsHit_example = match_text-IsHit (symbolic_call ∷ []) (codes "GET /v1/charge")

announce-test :
    (is_comment_line (codes "  # old") ≡ true)
    × (mentions_breaking_change (codes "feat!: drop v1") ≡ true)
    × (mentions_breaking_change (codes "fix: a typo") ≡ false)
    × (major_bump (codes "v1.9.0") (codes "v2.0.0") ≡ true)
    × (major_bump (codes "v2.0") (codes "nightly") ≡ false)
unfolding is_comment_line mentions_breaking_change major_bump
announce-test = (refl, refl, refl, refl, refl)

abbrev sample_changes : List FileChange
sample_changes =
    record {
      filename = codes "app/server.go";
      patch =
          codes "@@ -3,2 +3,1 @@" ++ 10 ∷ (codes "-r.Get(/v1/charge)" ++ 10 ∷ codes "+r.Get(/v2)");
    }
    ∷ []

abbrev targets : List Target
targets = new_target symbolic_call ∷ []

removal-test :
    map {B = Str × Severity}
      (λ (r : Removal fixed). (r.signal, r.severity))
      (analyze_diff fixed targets sample_changes)
    ≡ (codes "diff.removed_path_literal", info) ∷ []
unfolding analyze_diff new_target
removal-test = refl

analyze_diff_lem_example :
    ((id : Str)
      → count_id id
          (map (λ (r : Removal fixed). r.target.id) (analyze_diff fixed targets sample_changes))
        ≤ 3)
    × All
        (λ (r : Removal fixed). rank risky ≤ rank r.severity)
        (analyze_diff fixed targets sample_changes)
analyze_diff_lem_example = analyze_diff_lem fixed targets sample_changes
