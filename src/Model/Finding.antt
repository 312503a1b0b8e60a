-- ===== src/Model/Finding.antt =====
-- `Finding` of internal/model/model.go: visibility, the display order and the tally.
pub mod Display
use api_integrity_tool.Base.{
  ℕ, ◌+◌, Bool, true, false, not, Option, none, some, List, [], ◌∷◌, map, ltb, ◌==◌, if◌then◌else◌,
  Str, str_eq, str_lt, sort_by, by_key, flip,
}
use api_integrity_tool.Model.Severity.{Severity, breaking, risky, rank, severity_eq}
use api_integrity_tool.Model.Repo.{RepoRef}

-- The status values; the Go type is a string, so `unset` is the empty one.
pub data FindingStatus : Type 0 where
  unset open_status acked muted resolved : FindingStatus
  other : Str → FindingStatus

pub record Evidence : Type 0 where
  pub kind : Str
  pub file : Str
  pub old_path : Str
  pub line : ℕ
  pub hunk : Str
  pub json_pointer : Str
  pub before : Str
  pub after : Str
  pub permalink_url : Str

pub record EndpointRef : Type 0 where
  pub id : Str
  pub method : Str
  pub path : Str
  pub call_site : Str

pub record Finding : Type 0 where
  pub id : Str
  pub fingerprint : Str
  pub signal : Str
  pub severity : Severity
  pub confidence : ℕ
  pub corroborated : Bool
  pub title : Str
  pub detail : Str
  pub suggestion : Str
  pub host : Str
  pub repo : RepoRef
  pub commit_sha : Str
  pub base_sha : Str
  pub head_sha : Str
  pub compare_url : Str
  pub evidence : List Evidence
  pub endpoints : List EndpointRef
  pub first_seen_at : ℕ
  pub last_seen_at : ℕ
  pub occurrences : ℕ
  pub status : FindingStatus
  pub status_note : Str
  pub status_by : Str
  pub status_at : Option ℕ
  pub muted_until : Option ℕ

-- Finding.EndpointIDs
unfoldable pub endpoint_ids : Finding → List Str
unfolding sort_by str_lt
endpoint_ids f = sort_by str_lt (map (λ (e : EndpointRef). e.id) f.endpoints)

-- Finding.Visible
unfoldable pub visible : Finding → ℕ → Bool
visible f now = elim f.status [
  | acked ↦ false
  | resolved ↦ false
  | muted ↦ elim f.muted_until [ none ↦ false | some t ↦ ltb t now ]
  | _ ↦ true
]

bool_eq : Bool → Bool → Bool
bool_eq true b = b
bool_eq false b = not b

bool_lt : Bool → Bool → Bool
bool_lt a true = not a
bool_lt a false = false

-- The `less` of SortFindings. A corroborated finding comes first, and so does a later one.
unfoldable pub finding_less : Finding → Finding → Bool
unfolding bool_eq bool_lt rank severity_eq str_eq str_lt
finding_less =
    by_key severity_eq (λ a b. ltb (rank a) (rank b)) (λ (f : Finding). f.severity)
      (by_key bool_eq (flip bool_lt) (λ (f : Finding). f.corroborated)
        (by_key ◌==◌ (flip ltb) (λ (f : Finding). f.last_seen_at) (λ a b. str_lt a.id b.id)))

-- SortFindings
unfoldable pub sort_findings : List Finding → List Finding
unfolding sort_by finding_less
sort_findings = sort_by finding_less

pub record Counts : Type 0 where
  pub breaking : ℕ
  pub risky : ℕ
  pub info : ℕ
  pub total : ℕ

-- One round of the loop of CountBySeverity.
pub count_one : Severity → Counts → Counts
count_one Severity.breaking c = record c { breaking = c.breaking + 1; total = c.total + 1 }
count_one Severity.risky c = record c { risky = c.risky + 1; total = c.total + 1 }
count_one _ c = record c { info = c.info + 1; total = c.total + 1 }

count_from : Counts → List Finding → Counts
unfolding count_one
count_from c [] = c
count_from c (f ∷ fs) = count_from (count_one f.severity c) fs

-- CountBySeverity
unfoldable pub count_by_severity : List Finding → Counts
unfolding count_from
count_by_severity = count_from (record { breaking = 0; risky = 0; info = 0; total = 0 })
