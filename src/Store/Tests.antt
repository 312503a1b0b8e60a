-- ===== src/Store/Tests.antt =====
-- The theorems on the store at concrete states, and tests of its operations.
use api_integrity_tool.Base.{
  true, ℕ, ◌≡◌, refl, some, List, [], ◌∷◌, codes, Str, str_eq, Perm, All, keep, length, find_by,
  arith, take, sort_by, map, if◌then◌else◌,
}
use api_integrity_tool.Model.Severity.{risky, info, rank}
use api_integrity_tool.Model.Repo.{key}
use api_integrity_tool.Model.Finding.{Finding, open_status, acked}
use api_integrity_tool.Model.Samples.{
  billing_repo, sample_finding, sample_upstream, sample_decision,
}
use api_integrity_tool.Store.State.{State, Run, ok, empty_state, normalize, run_less}
use api_integrity_tool.Store.Findings.{upsert_findings, resolve_stale}
use api_integrity_tool.Store.Findings.Refines.{
  print, Distinct, findings_of, seen_all, upsert_findings_lem,
}
use api_integrity_tool.Store.Findings.Triage.{
  mentions, Continues, upsert_findings-Continues, upsert_findings-acked,
}
use api_integrity_tool.Store.Findings.Stale.{is_over, closed_by_monitor, resolve_stale_lem}
use api_integrity_tool.Store.Links.{
  upstreams_for_endpoint, link_upstream, set_decision, decision_for,
}
use api_integrity_tool.Store.Links.Prefixes.{
  Covers, LongestFirst, upstreams_for_endpoint-LongestFirst,
}
use api_integrity_tool.Store.Links.Triples.{IsLinked, upstreams_of, link_upstream_lem}
use api_integrity_tool.Store.Links.Decisions.{
  host_of, OnePerHost, decisions_of, state_of, decided, if_active, set_decision_lem,
}
use api_integrity_tool.Store.Runs.{start_run, finish_run}
use api_integrity_tool.Store.Runs.History.{Numbered, runs_of, started, after_start, start_run_lem}

abbrev acked_finding : Finding
acked_finding = sample_finding (codes "fp_a") risky acked

abbrev triaged : State
triaged = record empty_state {
  findings = acked_finding ∷ sample_finding (codes "fp_b") info open_status ∷ [];
}

abbrev again : List Finding
again =
    sample_finding (codes "fp_a") info open_status
    ∷ sample_finding (codes "fp_c") risky open_status
    ∷ []

triaged-Distinct : Distinct triaged.findings
unfolding str_eq
triaged-Distinct = ((refl, tt), (tt, tt))

stored_acked : find_by print (codes "fp_a") triaged.findings ≡ some acked_finding
unfolding str_eq
stored_acked = refl

upsert_findings_lem_example :
    Distinct (findings_of (upsert_findings again 9 (some triaged)).1)
    × ((fp : Str)
        → find_by print fp (findings_of (upsert_findings again 9 (some triaged)).1)
          ≡ seen_all 9 fp again (find_by print fp triaged.findings))
upsert_findings_lem_example = upsert_findings_lem again 9 triaged (omega arith) triaged-Distinct

upsert_findings-Continues_example :
    (e' : Finding) × (find_by print
        (codes "fp_a")
        (findings_of (upsert_findings again 9 (some triaged)).1)
      ≡ some e')
    × Continues acked_finding (mentions (codes "fp_a") again) e'
upsert_findings-Continues_example =
    upsert_findings-Continues again 9 triaged (omega arith) triaged-Distinct (codes "fp_a")
      acked_finding stored_acked

upsert_findings-acked_example :
    (e' : Finding) × (find_by print
        (codes "fp_a")
        (findings_of (upsert_findings again 9 (some triaged)).1)
      ≡ some e')
    × (e'.status ≡ acked)
unfolding rank
upsert_findings-acked_example =
    upsert_findings-acked again 9 triaged (omega arith) triaged-Distinct (codes "fp_a")
      acked_finding stored_acked refl (λ h. omega arith, (λ h. omega arith, tt))

abbrev undocumented : Str
undocumented = codes "spec.undocumented"

abbrev live_prints : List Str
live_prints = codes "fp_a" ∷ []

resolve_stale_lem_example :
    ((resolve_stale undocumented (key billing_repo) live_prints (codes "gone") 9 (some triaged)).0
      ≡ ok (length (keep (is_over undocumented (key billing_repo) live_prints) triaged.findings)))
    × Perm
        (findings_of
          (resolve_stale undocumented
            (key billing_repo)
            live_prints
            (codes "gone")
            9
            (some triaged)).1)
        (map
          (λ (f : Finding).
            if is_over undocumented (key billing_repo) live_prints f
            then closed_by_monitor 9 (codes "gone") f
            else f)
          triaged.findings)
resolve_stale_lem_example =
    resolve_stale_lem undocumented (key billing_repo) live_prints (codes "gone") 9 triaged
      (omega arith)

-- One of the two findings is live, so one is closed.
closes_one :
    (resolve_stale undocumented (key billing_repo) live_prints (codes "gone") 9 (some triaged)).0
    ≡ ok 1
unfolding resolve_stale key str_eq
closes_one = refl

abbrev linked_state : State
linked_state = record empty_state {
  upstreams = sample_upstream (codes "/v1/") ∷ sample_upstream (codes "/v1/billing/") ∷ [];
  decisions = sample_decision ∷ [];
}

upstreams_for_endpoint-LongestFirst_example :
    All (Covers (codes "api.acme.com") (codes "/v1/billing/pay")) (
      upstreams_for_endpoint
        (normalize linked_state)
        (codes "api.acme.com")
        (codes "/v1/billing/pay"))
    × LongestFirst (
        upstreams_for_endpoint
          (normalize linked_state)
          (codes "api.acme.com")
          (codes "/v1/billing/pay"))
upstreams_for_endpoint-LongestFirst_example =
    upstreams_for_endpoint-LongestFirst linked_state (codes "api.acme.com")
      (codes "/v1/billing/pay")

routes_to_longest :
    upstreams_for_endpoint (normalize linked_state) (codes "api.acme.com") (codes "/v1/billing/pay")
    ≡ sample_upstream (codes "/v1/billing/") ∷ sample_upstream (codes "/v1/") ∷ []
unfolding upstreams_for_endpoint normalize
routes_to_longest = refl

link_upstream_lem_example :
    IsLinked 9
      (sample_upstream [])
      linked_state.upstreams
      (upstreams_of (link_upstream (sample_upstream []) 9 (some linked_state)).1)
link_upstream_lem_example = link_upstream_lem (sample_upstream []) 9 linked_state (omega arith)

set_decision_lem_example :
    OnePerHost (decisions_of (set_decision sample_decision 9 (some linked_state)).1)
    × ((host : Str) (t : ℕ)
        → decision_for
            (state_of (set_decision sample_decision 9 (some linked_state)).1 linked_state)
            host
            t
          ≡ if_active t
              (decided sample_decision 9 host (find_by host_of host linked_state.decisions)))
set_decision_lem_example = set_decision_lem sample_decision 9 linked_state (omega arith) (tt, tt)

start_run_lem_example :
    (start_run (codes "cli") 9 (some linked_state) ≡ (
      ok (started (codes "cli") 9 linked_state),
      some (after_start (codes "cli") 9 linked_state),
    ))
    × ((after_start (codes "cli") 9 linked_state).runs
        ≡ started (codes "cli") 9 linked_state ∷ take 49 (sort_by run_less linked_state.runs))
    × Numbered (after_start (codes "cli") 9 linked_state)
    × ((run : Run) (later : ℕ)
        → run.id ≡ (started (codes "cli") 9 linked_state).id
        → run.seq ≡ (started (codes "cli") 9 linked_state).seq
        → runs_of (finish_run run later (some (after_start (codes "cli") 9 linked_state))).1
          ≡ record run { finished_at = some later; complete = true }
            ∷ take 49 (sort_by run_less linked_state.runs))
start_run_lem_example = start_run_lem (codes "cli") 9 linked_state (omega arith) tt
