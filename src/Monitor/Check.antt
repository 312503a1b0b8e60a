-- ===== src/Monitor/Check.antt =====
-- checkUpstream of internal/monitor/run.go, as the steps between its returns. The repository host and the
-- four analyzers of internal/monitor/analyzers.go are interfaces. Every return sets the state.
pub mod Anchor
use api_integrity_tool.Base.{
  ℕ, ◌+◌, Bool, true, false, not, ◌&&◌, ◌||◌, Option, none, some, List, [], ◌∷◌, ◌++◌,
  if◌then◌else◌, ◌==◌, any, keep, take, Str, codes, str_eq, str_lt, is_empty, sort_by, ltb,
}
use api_integrity_tool.Model.Repo.{RepoRef, Upstream, key}
use api_integrity_tool.Model.Finding.{Finding}
use api_integrity_tool.Store.State.{State, UpstreamState}
use api_integrity_tool.Store.Runs.{get_check}
use api_integrity_tool.Index.Calls.{Call}
use api_integrity_tool.Monitor.Notes.{
  append_unique, append_unique_all, merge_strings, get_etag, set_etag, stable_tag, listed,
  first_sha, or_head,
}
use api_integrity_tool.Monitor.FileClass.{is_spec_path}
use api_integrity_tool.Monitor.Targets.{HostMappings, targets_for}
use api_integrity_tool.Monitor.Source.{
  SourceError, is_not_found, is_bad_ref, RepoId, Rate, Meta, Repo, Commit, Compare, Release, Answer,
  GitHubSource,
}

-- upstreamResult with its error
pub record UpstreamResult : Type 0 where
  pub findings : List Finding
  pub state : UpstreamState
  pub degraded : List Str
  pub calls : ℕ
  pub rate : Rate
  -- What the check took from the run's budget of specification bytes.
  pub spent : ℕ
  pub skipped : Bool
  pub baselined : Bool
  pub error : Option SourceError

-- What the analyzers find in a comparison, and what they note in the state and the result.
pub record Analysis : Type 0 where
  pub findings : List Finding
  pub degraded : List Str
  pub calls : ℕ
  pub spent : ℕ
  pub found_specs : List Str
  pub last_release_tag : Str

-- analyzeSpecs, analyzeDiff (which a truncated comparison leaves out), analyzeCommits and analyzeReleases,
-- for an upstream, the calls that depend on it, the base, the head, the comparison, the specifications
-- known and the last release.
abbrev pub Analyzers : Type 0
Analyzers = Upstream → List Call → Str → Str → Compare → List Str → Str → Analysis

pub record Options : Type 0 where
  pub force : Bool
  pub max_files : ℕ

abbrev pub unseen : UpstreamState
unseen = record {
  default_branch = [];
  last_head_sha = [];
  last_checked_at = 0;
  pushed_at_seen = 0;
  last_release_tag = [];
  last_tag_name = [];
  spec_paths = [];
  etags = [];
  status = [];
  last_error = [];
  consecutive_failures = 0;
  skip_until_run = 0;
}

abbrev pub state_or_unseen : Option UpstreamState → UpstreamState
state_or_unseen none = unseen
state_or_unseen (some us) = us

abbrev pub repo_tag : Str
repo_tag = codes "repo"

unfoldable pub repo_failed : UpstreamState → SourceError → UpstreamState
repo_failed prev e = record prev {
  consecutive_failures = prev.consecutive_failures + 1;
  last_error = e.text;
  status = if is_not_found e then codes "inaccessible" else prev.status;
}

-- The map of ETags that it gives is the one that the source writes in place.
unfoldable pub repo_answered : UpstreamState → Meta → UpstreamState
unfolding set_etag
repo_answered prev m = record prev {
  etags = if is_empty m.etag then prev.etags else set_etag repo_tag m.etag prev.etags;
  consecutive_failures = 0;
  last_error = [];
  status = codes "active";
}

-- `identical` or `behind`, and whatever else is not a step forward
unfoldable pub stands_still : Compare → Bool
unfolding str_eq
stands_still cmp =
    not (is_empty cmp.status)
    && (not (str_eq cmp.status (codes "ahead")) && not (str_eq cmp.status (codes "diverged")))

module _ (source : GitHubSource) (analyzers : Analyzers) (opts : Options) (config : HostMappings)
    (now : ℕ) where
  -- A return that has looked at the upstream and found nothing to do.
  abbrev pub skip : UpstreamState → ℕ → Rate → List Str → UpstreamResult
  skip next calls rate degraded = record {
    findings = [];
    state = record next { last_checked_at = now };
    degraded = degraded;
    calls = calls;
    rate = rate;
    spent = 0;
    skipped = true;
    baselined = false;
    error = none;
  }

  -- A return with an error.
  abbrev pub fail : UpstreamState → ℕ → Rate → SourceError → UpstreamResult
  fail next calls rate e = record {
    findings = [];
    state = next;
    degraded = [];
    calls = calls;
    rate = rate;
    spent = 0;
    skipped = false;
    baselined = false;
    error = some e;
  }

  -- The branch of the first sight: resolveHead, discoverSpecs and latestRelease.
  unfoldable pub baseline : UpstreamState → RepoId → Upstream → Str → ℕ → Rate → UpstreamResult
  unfolding sort_by str_lt stable_tag is_spec_path
  baseline next id u head calls rate =
      let commits = source.commits_since id in
      let tree = source.list_tree id head u.repo.subpath in
      let rels = source.releases id 5 in
      let tag = stable_tag (listed rels) in
      record {
        findings = [];
        state = record next {
          last_head_sha = first_sha head (listed commits);
          last_checked_at = now;
          spec_paths = take 20 (sort_by str_lt (keep is_spec_path (listed tree)));
          last_release_tag = if is_empty tag then next.last_release_tag else tag;
          last_tag_name = if is_empty tag then next.last_tag_name else tag;
        };
        degraded = [];
        calls = calls + commits.meta.calls + tree.meta.calls + rels.meta.calls;
        rate = rate;
        spent = 0;
        skipped = false;
        baselined = true;
        error = none;
      }

  -- The branch of a comparison that fails.
  unfoldable pub compare_failed :
      UpstreamState → RepoId → Str → ℕ → Rate → SourceError → UpstreamResult
  compare_failed next id head calls rate e =
      let commits = source.commits_since id in
      if is_bad_ref e || is_not_found e
      then record {
        findings = [];
        state = record next {
          last_head_sha = first_sha head (listed commits);
          last_checked_at = now;
        };
        degraded = codes "history_rewritten" ∷ [];
        calls = calls + commits.meta.calls;
        rate = rate;
        spent = 0;
        skipped = false;
        baselined = true;
        error = none;
      }
      else fail next calls rate e

  -- The analysis of a comparison that moves forward.
  unfoldable pub analyzed :
      UpstreamState
      → UpstreamState
      → Upstream
      → List Call
      → Str
      → ℕ
      → Rate
      → Compare
      → UpstreamResult
  unfolding append_unique_all merge_strings
  analyzed prev next u calls_of head calls rate cmp =
      let head_sha = or_head cmp.head_sha head in
      let a =
        analyzers u calls_of prev.last_head_sha head_sha cmp prev.spec_paths
          next.last_release_tag in
      record {
        findings = a.findings;
        state = record next {
          last_head_sha = head_sha;
          last_checked_at = now;
          last_release_tag = a.last_release_tag;
          spec_paths = elim a.found_specs [
            | [] ↦ next.spec_paths
            | p ∷ ps ↦ merge_strings next.spec_paths (p ∷ ps)
          ];
        };
        degraded =
            append_unique_all (if cmp.files_truncated then codes "files_truncated" ∷ [] else [])
              a.degraded;
        calls = calls + a.calls;
        rate = rate;
        spent = a.spent;
        skipped = false;
        baselined = false;
        error = none;
      }

  unfoldable pub compared :
      UpstreamState
      → UpstreamState
      → Upstream
      → List Call
      → Str
      → ℕ
      → Rate
      → Option Compare
      → UpstreamResult
  unfolding stands_still analyzed
  compared prev next u calls_of head calls rate none = skip next calls rate []
  compared prev next u calls_of head calls rate (some cmp) =
      if stands_still cmp
      then skip (record next { last_head_sha = or_head cmp.head_sha next.last_head_sha }) calls rate
          []
      else analyzed prev next u calls_of head calls rate cmp

  unfoldable pub after_compare :
      UpstreamState
      → UpstreamState
      → RepoId
      → Upstream
      → List Call
      → Str
      → ℕ
      → Rate
      → Answer Compare
      → UpstreamResult
  unfolding compare_failed compared
  after_compare prev next id u calls_of head calls rate ans =
      let all_calls = calls + ans.meta.calls in
      let last = if ltb 0 ans.meta.rate.limit then ans.meta.rate else rate in
      elim ans.error [
        | some e ↦ compare_failed next id head all_calls last e
        | none ↦ compared prev next u calls_of head all_calls last ans.value
      ]

  -- What follows when the upstream may have moved.
  unfoldable pub moved :
      UpstreamState → UpstreamState → RepoId → Upstream → List Call → ℕ → Rate → UpstreamResult
  unfolding baseline targets_for after_compare
  moved prev next id u index calls rate =
      let head = or_head u.repo.ref (or_head next.default_branch (codes "HEAD")) in
      let calls_of = targets_for config u index in
      if is_empty prev.last_head_sha then baseline next id u head calls rate else elim calls_of [
        | [] ↦ skip next calls rate []
        | c ∷ cs ↦
            after_compare prev next id u (c ∷ cs) head calls rate
              (source.compare id prev.last_head_sha head opts.max_files u.repo.subpath)
      ]

  -- The gates on the answer about the repository.
  unfoldable pub gated :
      UpstreamState
      → UpstreamState
      → RepoId
      → Upstream
      → List Call
      → Meta
      → Option Repo
      → UpstreamResult
  unfolding moved
  gated prev next id u index m none =
      if m.not_modified
      then skip next m.calls m.rate []
      else moved prev next id u index m.calls m.rate
  gated prev next id u index m (some repo) =
      if repo.archived
      then skip (record next { default_branch = repo.default_branch; status = codes "archived" })
          m.calls m.rate (codes "upstream_archived" ∷ [])
      else if not opts.force
          && (not (prev.pushed_at_seen == 0) && not (ltb prev.pushed_at_seen repo.pushed_at))
      then skip (record next { default_branch = repo.default_branch }) m.calls m.rate []
      else moved prev
          (record next { default_branch = repo.default_branch; pushed_at_seen = repo.pushed_at }) id
          u index m.calls m.rate

  unfoldable pub after_repo :
      UpstreamState → RepoId → Upstream → List Call → Answer Repo → UpstreamResult
  unfolding repo_failed repo_answered gated
  after_repo prev id u index ans = elim ans.error [
    | some e ↦ fail (repo_failed prev e) ans.meta.calls ans.meta.rate e
    | none ↦ gated prev (repo_answered prev ans.meta) id u index ans.meta ans.value
  ]

  -- The state read for the upstream: of what an earlier check of the run did to it, `share_etags` of Run
  -- keeps the map of ETags, which Go shares between the two.
  unfoldable pub previous : State → Upstream → UpstreamState
  unfolding get_check key
  previous st u = state_or_unseen (get_check (key u.repo) st.checks)

  -- checkUpstream
  unfoldable pub check_upstream : State → Upstream → List Call → UpstreamResult
  unfolding previous get_etag after_repo
  check_upstream st u index =
      let prev = previous st u in
      let id : RepoId = record { owner = u.repo.owner; name = u.repo.name } in
      after_repo prev id u index
        (source.repo id (if opts.force then [] else get_etag repo_tag prev.etags))
