-- ===== src/Monitor/Run.antt =====
-- Run of internal/monitor/run.go. It reads the time once, and it is told for each upstream, by its place,
-- whether the context is done. The reports of progress are left out.
pub mod Pass
mod Tests
use api_integrity_tool.Base.{
  ℕ, zero, suc, ◌+◌, Bool, true, false, not, ◌&&◌, ◌||◌, Option, none, some, List, [], ◌∷◌, ◌++◌,
  if◌then◌else◌, map, length, Str, codes, any, is_empty, str_eq, ltb,
}
use api_integrity_tool.Model.Severity.{Severity}
use api_integrity_tool.Model.Repo.{Upstream, canonical, key, slug}
use api_integrity_tool.Model.Finding.{Finding, Counts, count_by_severity, sort_findings}
use api_integrity_tool.Store.State.{
  State, UpstreamState, Disk, Result, ok, err, StoreError, Run, read_locked,
}
use api_integrity_tool.Store.Findings.{upsert_findings}
use api_integrity_tool.Store.Runs.{start_run, finish_run, set_check_state, no_counts}
use api_integrity_tool.Index.Calls.{Call}
use api_integrity_tool.Monitor.Targets.{HostMappings}
use api_integrity_tool.Monitor.Source.{SourceError, is_rate_limited, Rate, GitHubSource}
use api_integrity_tool.Monitor.Check
use api_integrity_tool.Monitor.Check.{UpstreamResult, Analyzers, check_upstream}
use api_integrity_tool.Monitor.Notes.{append_unique, append_unique_all}
use api_integrity_tool.Monitor.Select.{select_upstreams, filter_severity, new_only}

pub record UpstreamError : Type 0 where
  pub host : Str
  pub repo : Str
  pub error : Str

-- What the loop of Run gathers in its Result, and the findings.
pub record Progress : Type 0 where
  pub complete : Bool
  pub checked : ℕ
  pub skipped : ℕ
  pub degraded : List Str
  pub errors : List UpstreamError
  pub rate : Rate
  pub api_calls : ℕ
  pub baselined : List Str
  pub findings : List Finding

abbrev pub no_progress : Progress
no_progress = record {
  complete = true;
  checked = 0;
  skipped = 0;
  degraded = [];
  errors = [];
  rate = record { limit = 0; remaining = 0 };
  api_calls = 0;
  baselined = [];
  findings = [];
}

abbrev pub add_error : Upstream → Option SourceError → List UpstreamError → List UpstreamError
add_error u none errors = errors
add_error u (some e) errors =
    errors ++ record { host = u.host; repo = canonical u.repo; error = e.text } ∷ []

-- What one upstream adds, but for its error.
unfoldable pub note : Upstream → UpstreamResult → Progress → Progress
unfolding append_unique_all canonical slug
note u out p = record p {
  checked = if out.skipped then p.checked else p.checked + 1;
  skipped = if out.skipped then p.skipped + 1 else p.skipped;
  degraded = append_unique_all p.degraded out.degraded;
  rate = if ltb 0 out.rate.remaining || ltb 0 out.rate.limit then out.rate else p.rate;
  api_calls = p.api_calls + out.calls;
  baselined =
      if out.baselined
      then p.baselined ++ (u.host ++ (codes " (" ++ (slug u.repo ++ codes ")"))) ∷ []
      else p.baselined;
  findings = p.findings ++ out.findings;
}

abbrev pub note_error : Upstream → Option SourceError → Progress → Progress
note_error u error p = record p { errors = add_error u error p.errors }

-- The loop is broken off before `left` upstreams, for a reason.
abbrev pub break_off : Str → ℕ → Progress → Progress
break_off reason left p = record p {
  complete = false;
  degraded = append_unique p.degraded reason;
  skipped = p.skipped + left;
}

-- The progress at the end of the loop, an error of the store, and the state file.
pub record Looped : Type 0 where
  pub progress : Progress
  pub error : Option StoreError
  pub disk : Disk

abbrev pub looped : Progress → Disk → Looped
looped p disk = record { progress = p; error = none; disk = disk }

abbrev pub rate_limited_error : Option SourceError → Bool
rate_limited_error none = false
rate_limited_error (some e) = is_rate_limited e

-- After the check state is stored: its error ends the run, a rate limit ends the loop, else the rest.
abbrev pub go_on :
    {A : Type 0} → Result A → Upstream → Option SourceError → ℕ → Progress → Disk → Looped → Looped
go_on (err e) u error left p disk rest = record { progress = p; error = some e; disk = disk }
go_on (ok a) u error left p disk rest =
    if rate_limited_error error
    then looped (break_off (codes "rate_limited") left (note_error u error p)) disk
    else rest

pub record RunOptions : Type 0 where
  pub hosts : List Str
  pub repos : List Str
  -- behind its default, info
  pub min_severity : Severity
  pub trigger : Str
  pub min_rate_remaining : ℕ
  -- Force, and MaxFiles behind its default, 300
  pub check : Check.Options

unfoldable pub rate_is_low : RunOptions → Progress → Bool
rate_is_low opts p =
    ltb 0 opts.min_rate_remaining
    && (ltb 0 p.rate.remaining && ltb p.rate.remaining opts.min_rate_remaining)

-- The analyzers of a run share its budget of specification bytes: they are told what the checks before
-- have taken from it.
abbrev pub RunAnalyzers : Type 0
RunAnalyzers = ℕ → Analyzers

-- A check writes the ETag into the map of the state that Run has read, unless that map is nil.
unfoldable pub share_etags : Upstream → UpstreamResult → State → State
unfolding key str_eq
share_etags u out st = record st {
  checks =
      map
        (λ (c : Str × UpstreamState).
          if str_eq c.0 (key u.repo) && any (λ e. true) c.1.etags
          then (c.0, record c.1 { etags = out.state.etags })
          else c)
        st.checks;
}

module _ (source : GitHubSource) (analyzers : RunAnalyzers) (opts : RunOptions)
    (config : HostMappings) (index : List Call) (cancelled : ℕ → Bool) (now : ℕ) where
  abbrev pub checked_upstream : State → ℕ → Upstream → UpstreamResult
  checked_upstream st spent u =
      check_upstream source (analyzers spent) opts.check config now st u index

  -- The loop of Run at the upstream with number `i`, with what was taken from the budget so far.
  unfoldable pub run_loop : ℕ → List Upstream → State → ℕ → Progress → Disk → Looped
  unfolding check_upstream note rate_is_low append_unique set_check_state key share_etags
  run_loop i [] st spent p disk = looped p disk
  run_loop i (u ∷ us) st spent p disk =
      let out = checked_upstream st spent u in
      let stored = set_check_state (key u.repo) out.state now disk in
      let after = note u out p in
      let rest =
        run_loop (i + 1) us (share_etags u out st) (spent + out.spent)
          (note_error u out.error after) stored.1 in
      if cancelled i
      then looped (record p { complete = false }) disk
      else if rate_is_low opts p
      then looped (break_off (codes "rate_budget_reached") (length (u ∷ us)) p) disk
      else go_on stored.0 u out.error (length us) after stored.1 rest

-- What Run writes to the record of the run.
abbrev pub run_record : Run → Progress → List Finding → Run
run_record run p news = record run {
  checked = p.checked;
  skipped = p.skipped;
  api_calls = p.api_calls;
  new_findings = length news;
  counts = count_by_severity news;
  degraded = p.degraded;
  errors = run.errors ++ map (λ (e : UpstreamError). e.host ++ (codes ": " ++ e.error)) p.errors;
}

-- The result of Run: New in its order, Updated, and the rest of it.
pub record Outcome : Type 0 where
  pub progress : Progress
  pub new : List Finding
  pub updated : ℕ
  pub error : Option StoreError
  pub disk : Disk

abbrev pub stopped : Progress → StoreError → Disk → Outcome
stopped p e disk = record { progress = p; new = []; updated = 0; error = some e; disk = disk }

abbrev pub result_error : {A : Type 0} → Result A → Option StoreError
result_error (ok a) = none
result_error (err e) = some e

-- Run behind its loop: the findings are filtered and stored, the new ones are told, and the record of the
-- run is finished.
unfoldable pub report : Run → Severity → ℕ → Looped → Outcome
unfolding filter_severity upsert_findings read_locked new_only sort_findings finish_run
    count_by_severity
report run min now l = elim l.error [
  | some e ↦ stopped l.progress e l.disk
  | none ↦
      let kept = filter_severity min l.progress.findings in
      let stored = upsert_findings kept now l.disk in
      elim stored.0 [
        | err e ↦ stopped l.progress e stored.1
        | ok (added, updated) ↦
            let news = new_only kept (read_locked stored.1) in
            let finished = finish_run (run_record run l.progress news) now stored.1 in
            record {
              progress = l.progress;
              new = sort_findings news;
              updated = updated;
              error = result_error finished.0;
              disk = finished.1;
            }
      ]
]

abbrev pub or_cli : Str → Str
or_cli [] = codes "cli"
or_cli (c ∷ s) = c ∷ s

module _ (source : GitHubSource) (analyzers : RunAnalyzers) (opts : RunOptions)
    (config : HostMappings) (index : List Call) (cancelled : ℕ → Bool) (now : ℕ) where
  -- Run
  unfoldable pub run : Disk → Outcome
  unfolding read_locked start_run select_upstreams run_loop report
  run disk = elim (read_locked disk) [
    | err e ↦ stopped no_progress e disk
    | ok st ↦
        let started = start_run (or_cli opts.trigger) now disk in
        elim started.0 [
          | err e ↦ stopped no_progress e started.1
          | ok r ↦ report r opts.min_severity now (
              run_loop source analyzers opts config index cancelled now 0
                (select_upstreams opts.hosts opts.repos st.upstreams) st 0 no_progress started.1)
        ]
  ]
