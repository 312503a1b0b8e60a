-- ===== src/Store/Findings.antt =====
-- UpsertFindings, ResolveStale and SetFindingStatus of internal/store/store.go.
pub mod Refines
pub mod Triage
pub mod Stale
use api_integrity_tool.Base.{
  ℕ, zero, suc, ◌+◌, Bool, true, false, not, ◌&&◌, ◌||◌, Option, none, some, List, [], ◌∷◌, ◌++◌,
  length, any, ltb, leb, if◌then◌else◌, Str, codes, str_eq,
}
use api_integrity_tool.Model.Severity.{rank}
use api_integrity_tool.Model.Repo.{key}
use api_integrity_tool.Model.Finding.{Finding, FindingStatus, unset, open_status, acked, resolved}
use api_integrity_tool.Store.State.{State, Disk, Result, ok, err, no_finding, update}

-- The map byFP: a later entry for a key stands in front of an older one.
abbrev pub FingerprintIndex : Type 0
FingerprintIndex = List (Str × ℕ)

unfoldable pub index_of : Str → FingerprintIndex → Option ℕ
index_of fp [] = none
index_of fp ((k, i) ∷ m) = let rest = index_of fp m in if str_eq k fp then some i else rest

-- The loop that fills byFP from position `i` on.
pub index_findings : ℕ → List Finding → FingerprintIndex → FingerprintIndex
index_findings i [] m = m
index_findings i (f ∷ fs) m = index_findings (i + 1) fs ((f.fingerprint, i) ∷ m)

-- A stored finding that was resolved is open again once it is seen.
unfoldable pub reopen_resolved : Finding → Finding
reopen_resolved e = elim e.status [
  | resolved ↦ record e { status = open_status; status_note = codes "reopened: seen again" }
  | _ ↦ e
]

-- A finding that got worse takes the new severity, and opens again if it was acknowledged.
unfoldable pub raise_severity : Finding → Finding → Finding
raise_severity f e =
    if ltb (rank f.severity) (rank e.severity)
    then elim e.status [
      | acked ↦ record e {
        severity = f.severity;
        status = open_status;
        status_note = codes "reopened: severity increased";
      }
      | _ ↦ record e { severity = f.severity }
    ]
    else e

-- What every further sighting changes of the stored finding `e`.
unfoldable pub refresh : ℕ → Finding → Finding → Finding
refresh now f e = record e {
  occurrences = e.occurrences + 1;
  last_seen_at = now;
  commit_sha = f.commit_sha;
  base_sha = f.base_sha;
  head_sha = f.head_sha;
  compare_url = f.compare_url;
  evidence = f.evidence;
  endpoints = f.endpoints;
  corroborated = e.corroborated || f.corroborated;
}

-- The branch of UpsertFindings for a fingerprint that is stored: `e` is the stored finding.
unfoldable pub seen_again : ℕ → Finding → Finding → Finding
unfolding refresh reopen_resolved raise_severity rank
seen_again now f e = raise_severity f (reopen_resolved (refresh now f e))

default_status : FindingStatus → FindingStatus
default_status unset = open_status
default_status s = s

-- The branch for a fingerprint that is not stored.
unfoldable pub first_seen : ℕ → Finding → Finding
unfolding default_status
first_seen now f = record f {
  first_seen_at = now;
  last_seen_at = now;
  occurrences = 1;
  status = default_status f.status;
}

-- A write through `&st.Findings[i]`.
pub modify_at : ℕ → (Finding → Finding) → List Finding → List Finding
modify_at i g [] = []
modify_at zero g (f ∷ fs) = g f ∷ fs
modify_at (suc i) g (f ∷ fs) = f ∷ modify_at i g fs

pub record Upsert : Type 0 where
  pub findings : List Finding
  pub by_fp : FingerprintIndex
  pub added : ℕ
  pub updated : ℕ

-- One round of the loop over the fresh findings.
pub upsert_one : ℕ → Finding → Upsert → Upsert
unfolding index_of modify_at seen_again first_seen
upsert_one now f u = elim (index_of f.fingerprint u.by_fp) [
  | some i ↦ record u {
    findings = modify_at i (seen_again now f) u.findings;
    updated = u.updated + 1;
  }
  | none ↦ record u {
    findings = u.findings ++ first_seen now f ∷ [];
    by_fp = (f.fingerprint, length u.findings) ∷ u.by_fp;
    added = u.added + 1;
  }
]

pub upsert_loop : ℕ → List Finding → Upsert → Upsert
unfolding upsert_one
upsert_loop now [] u = u
upsert_loop now (f ∷ fs) u = upsert_loop now fs (upsert_one now f u)

-- The function that UpsertFindings hands to Update.
unfoldable pub upsert : ℕ → List Finding → State → State × (ℕ × ℕ)
unfolding index_findings upsert_loop
upsert now fresh st =
    let u = upsert_loop now fresh (record {
      findings = st.findings;
      by_fp = index_findings 0 st.findings [];
      added = 0;
      updated = 0;
    }) in
    (record st { findings = u.findings }, (u.added, u.updated))

-- Store.UpsertFindings
unfoldable pub upsert_findings : List Finding → ℕ → Disk → Result (ℕ × ℕ) × Disk
unfolding update upsert
upsert_findings fresh now disk = update (λ st. ok (upsert now fresh st)) now disk

-- The test of ResolveStale: a finding of the signal and the repository that is neither resolved
-- already nor live.
unfoldable pub is_stale : Str → Str → List Str → Finding → Bool
unfolding str_eq key
is_stale signal repo_key live f =
    if str_eq f.signal signal && str_eq (key f.repo) repo_key
    then elim f.status [ resolved ↦ false | _ ↦ not (any (λ fp. str_eq fp f.fingerprint) live) ]
    else false

unfoldable pub close_finding : ℕ → Str → Finding → Finding
close_finding now note f = record f {
  status = resolved;
  status_note = note;
  status_by = codes "monitor";
  status_at = some now;
}

-- The loop of ResolveStale: the findings after it, and how many it resolved.
unfoldable pub resolve_loop :
    (Finding → Bool) → (Finding → Finding) → List Finding → List Finding × ℕ
resolve_loop stale close [] = ([], 0)
resolve_loop stale close (f ∷ fs) =
    let (rest, n) = resolve_loop stale close fs in
    if stale f then (close f ∷ rest, n + 1) else (f ∷ rest, n)

-- The function that ResolveStale hands to Update.
pub resolve_step : Str → Str → List Str → Str → ℕ → State → Result (State × ℕ)
unfolding resolve_loop is_stale close_finding
resolve_step signal repo_key live note now st =
    let (fs, n) =
      resolve_loop (is_stale signal repo_key live) (close_finding now note) st.findings in
    ok (record st { findings = fs }, n)

-- Store.ResolveStale
unfoldable pub resolve_stale : Str → Str → List Str → Str → ℕ → Disk → Result ℕ × Disk
unfolding update resolve_step
resolve_stale signal repo_key live note now disk =
    update (resolve_step signal repo_key live note now) now disk

pub names_finding : Str → Finding → Bool
unfolding str_eq
names_finding id f = str_eq f.id id || str_eq f.fingerprint id

-- The loop of SetFindingStatus: the first finding that the id names is changed.
unfoldable pub set_status_in : Str → (Finding → Finding) → List Finding → Option (List Finding)
unfolding names_finding
set_status_in id g [] = none
set_status_in id g (f ∷ fs) =
    let rest = set_status_in id g fs in
    if names_finding id f
    then some (g f ∷ fs)
    else elim rest [ none ↦ none | some fs' ↦ some (f ∷ fs') ]

-- The function that SetFindingStatus hands to Update.
pub status_step : Str → FindingStatus → Str → Str → Option ℕ → ℕ → State → Result (State × Unit {0})
unfolding set_status_in
status_step id status note by muted_until now st =
    let change = λ (f : Finding). record f {
      status = status;
      status_note = note;
      status_by = by;
      status_at = some now;
      muted_until = muted_until;
    } in
    elim (set_status_in id change st.findings) [
      | none ↦ err (no_finding id)
      | some fs ↦ ok (record st { findings = fs }, tt)
    ]

-- Store.SetFindingStatus
unfoldable pub set_finding_status :
    Str → FindingStatus → Str → Str → Option ℕ → ℕ → Disk → Result (Unit {0}) × Disk
unfolding update status_step
set_finding_status id status note by muted_until now disk =
    update (status_step id status note by muted_until now) now disk
