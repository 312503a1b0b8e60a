-- ===== src/Monitor/Run/Tests.antt =====
-- The theorems on a run at concrete values, and tests of its parts.
use api_integrity_tool.Base.{
  ◌≡◌, refl, ◌⊎◌, true, false, none, some, List, [], ◌∷◌, length, codes, pos, int_lt,
}
use api_integrity_tool.Model.Severity.{risky, info}
use api_integrity_tool.Model.Repo.{key}
use api_integrity_tool.Model.Finding.{Finding, open_status}
use api_integrity_tool.Model.Samples.{billing_repo, sample_finding, sample_upstream}
use api_integrity_tool.Store.State.{State, UpstreamState, empty_state}
use api_integrity_tool.Store.Findings.{upsert_findings}
use api_integrity_tool.Store.State.{read_locked}
use api_integrity_tool.Monitor.Samples.{symbolic_call}
use api_integrity_tool.Monitor.Targets.{
  HostMappings, targets_for, has_flag, is_declared, credit_declared_host,
}
use api_integrity_tool.Monitor.Targets.Credit.{credit_declared_host_lem}
use api_integrity_tool.Monitor.Source.{failed, Meta, Compare, GitHubSource, Answer}
use api_integrity_tool.Monitor.Check
use api_integrity_tool.Monitor.Check.{Analyzers, UpstreamResult, unseen, check_upstream, previous}
use api_integrity_tool.Monitor.Check.Anchor.{IsRestrained, check_upstream-IsRestrained}
use api_integrity_tool.Monitor.Select.{new_only}
use api_integrity_tool.Monitor.Run.{RunOptions, RunAnalyzers, no_progress, run_loop, run}
use api_integrity_tool.Monitor.Run.Pass.{Accounts, run_loop-Accounts}

abbrev sample_mappings : HostMappings
sample_mappings = (codes "${sym:base}", codes "API.acme.com" ∷ []) ∷ []

credit_declared_host_lem_example :
    let d = credit_declared_host sample_mappings symbolic_call (codes "api.acme.com") in
    ((d ≡ symbolic_call)
      ⊎ ((has_flag symbolic_call.flags (codes "symbolic_host") ≡ true)
          × (is_declared sample_mappings symbolic_call (codes "api.acme.com") ≡ true)
          × (int_lt (pos 100) d.score ≡ false)
          × ((int_lt (pos 100) symbolic_call.score ≡ true)
              ⊎ (int_lt d.score symbolic_call.score ≡ false))))
    × (d.id ≡ symbolic_call.id)
    × (d.host ≡ symbolic_call.host)
    × (d.method ≡ symbolic_call.method)
    × (d.path ≡ symbolic_call.path)
    × (d.location ≡ symbolic_call.location)
credit_declared_host_lem_example =
    credit_declared_host_lem sample_mappings symbolic_call (codes "api.acme.com")

abbrev quiet : Meta
quiet = record {
  etag = codes "t1";
  not_modified = false;
  rate = record { limit = 5000; remaining = 4000 };
  calls = 1;
}

abbrev answer : {A : Type 0} → A → Answer A
answer a = record { value = some a; meta = quiet; error = none }

abbrev forward : Compare
forward = record {
  status = codes "ahead";
  head_sha = codes "bbb";
  html_url = [];
  commits = [];
  files = [];
  files_truncated = false;
}

-- A host whose repository was pushed to at time 9.
abbrev sample_source : Answer Compare → GitHubSource
sample_source cmp = record {
  repo =
      λ id tag. answer (record { default_branch = codes "main"; pushed_at = 9; archived = false });
  compare = λ id base head files prefix. cmp;
  commits_since = λ id. answer [];
  releases = λ id page. answer [];
  list_tree = λ id ref prefix. answer (codes "openapi.yaml" ∷ codes "main.go" ∷ []);
}

abbrev broken : Answer Compare
broken = record {
  value = none;
  meta = quiet;
  error = some (record { kind = failed; text = codes "timeout" });
}

-- Analyzers that report one finding.
abbrev sample_analyzers : Analyzers
sample_analyzers u calls base head cmp specs tag = record {
  findings = sample_finding (codes "fp_1") risky open_status ∷ [];
  degraded = [];
  calls = 2;
  spent = 7;
  found_specs = [];
  last_release_tag = tag;
}

abbrev check_options : Check.Options
check_options = record { force = false; max_files = 300 }

abbrev anchored : UpstreamState
anchored = record unseen { last_head_sha = codes "aaa"; pushed_at_seen = 5 }

abbrev state_of : UpstreamState → State
state_of us = record empty_state {
  upstreams = sample_upstream [] ∷ [];
  checks = (key billing_repo, us) ∷ [];
}

abbrev checked : Answer Compare → UpstreamState → UpstreamResult
checked cmp us =
    check_upstream (sample_source cmp) sample_analyzers check_options sample_mappings 20
      (state_of us) (sample_upstream []) (symbolic_call ∷ [])

check-test :
    (length (checked (answer forward) anchored).findings ≡ 1)
    × ((checked (answer forward) anchored).state.last_head_sha ≡ codes "bbb")
    × ((checked (answer forward) unseen).baselined ≡ true)
    × ((checked (answer forward) unseen).state.spec_paths ≡ codes "openapi.yaml" ∷ [])
    × ((checked (answer forward) unseen).findings ≡ [])
unfolding check_upstream key
check-test = (refl, refl, refl, refl, refl)

-- The comparison fails once; the time of the push is stored all the same, so that the next check, whose
-- comparison would succeed, is skipped at the old commit.
failed_compare_is_lost :
    let first = checked broken anchored in
    let second = checked (answer forward) first.state in
    (first.state.last_head_sha ≡ codes "aaa")
    × (first.state.pushed_at_seen ≡ 9)
    × (second.skipped ≡ true)
    × (second.findings ≡ [])
    × (second.state.last_head_sha ≡ codes "aaa")
unfolding check_upstream key
failed_compare_is_lost = (refl, refl, refl, refl, refl)

check_upstream-IsRestrained_example :
    IsRestrained
      (sample_source (answer forward))
      sample_analyzers
      check_options
      sample_mappings
      20
      (sample_upstream [])
      (targets_for sample_mappings (sample_upstream []) (symbolic_call ∷ []))
      (previous
        (sample_source (answer forward))
        sample_analyzers
        check_options
        sample_mappings
        20
        (state_of anchored)
        (sample_upstream []))
      (check_upstream
        (sample_source (answer forward))
        sample_analyzers
        check_options
        sample_mappings
        20
        (state_of anchored)
        (sample_upstream [])
        (symbolic_call ∷ []))
check_upstream-IsRestrained_example =
    check_upstream-IsRestrained (sample_source (answer forward)) sample_analyzers check_options
      sample_mappings 20 (state_of anchored) (sample_upstream []) (symbolic_call ∷ [])

abbrev fresh : List Finding
fresh =
    sample_finding (codes "fp_1") risky open_status
    ∷ sample_finding (codes "fp_2") info open_status
    ∷ []

-- A finding that one run makes twice, as for a repository behind two hosts, is never told as new.
twice_is_not_new :
    let f = sample_finding (codes "fp_1") risky open_status in
    let stored = (upsert_findings (f ∷ f ∷ []) 9 none).1 in
    new_only (f ∷ f ∷ []) (read_locked stored) ≡ []
unfolding upsert_findings read_locked new_only
twice_is_not_new = refl

abbrev run_analyzers : RunAnalyzers
run_analyzers spent = sample_analyzers

abbrev run_options : RunOptions
run_options = record {
  hosts = [];
  repos = [];
  min_severity = info;
  trigger = [];
  min_rate_remaining = 100;
  check = check_options;
}

loop_ends :
    (run_loop
      (sample_source (answer forward))
      run_analyzers
      run_options
      sample_mappings
      (symbolic_call ∷ [])
      (λ i. false)
      20
      0
      (sample_upstream [] ∷ [])
      (state_of anchored)
      0
      no_progress
      none).error
    ≡ none
unfolding run_loop
loop_ends = refl

run_loop-Accounts_example :
    Accounts
      (sample_source (answer forward))
      run_analyzers
      run_options
      sample_mappings
      (symbolic_call ∷ [])
      20
      (sample_upstream [] ∷ [])
      (state_of anchored)
      0
      no_progress
      (run_loop
        (sample_source (answer forward))
        run_analyzers
        run_options
        sample_mappings
        (symbolic_call ∷ [])
        (λ i. false)
        20
        0
        (sample_upstream [] ∷ [])
        (state_of anchored)
        0
        no_progress
        none)
run_loop-Accounts_example =
    run_loop-Accounts (sample_source (answer forward)) run_analyzers run_options sample_mappings
      (symbolic_call ∷ []) 20 0 (sample_upstream [] ∷ []) (state_of anchored) 0 no_progress none
      loop_ends

run-test :
    let out =
      run
        (sample_source (answer forward))
        run_analyzers
        run_options
        sample_mappings
        (symbolic_call ∷ [])
        (λ i. false)
        20
        (some (state_of anchored)) in
    (out.progress.checked ≡ 1) × (length out.new ≡ 1) × (out.error ≡ none)
unfolding run
run-test = (refl, refl, refl)
