-- ===== src/Index/Calls.antt =====
-- The types of internal/index/model.go, the canonical order of calls and their identity.
use api_integrity_tool.Base.{
  ℕ, Bool, true, false, not, ◌||◌, List, [], ◌∷◌, if◌then◌else◌, ◌==◌, ltb, any, Str, is_empty,
  str_eq, str_lt, by_key, sort_by, ℤ, pos, int_lt,
}

pub data Confidence : Type 0 where
  high medium low : Confidence

-- ConfidenceFor
unfoldable pub confidence_for : ℤ → Confidence
unfolding int_lt
confidence_for score =
    if not (int_lt score (pos 80))
    then high
    else if not (int_lt score (pos 50))
    then medium
    else low

pub data CallStatus : Type 0 where
  active removed : CallStatus
  other : Str → CallStatus

unfoldable pub is_removed : CallStatus → Bool
is_removed removed = true
is_removed _ = false

pub record Location : Type 0 where
  pub file : Str
  pub line : ℕ
  pub column : ℕ
  pub end_line : ℕ
  pub function : Str

pub record Lifecycle : Type 0 where
  pub first_seen_scan : Str
  pub first_seen_commit : Str
  pub last_seen_scan : Str
  pub last_seen_commit : Str
  pub status : CallStatus
  pub missing_scans : ℕ

-- The port, the path variables, the query keys and the raw expression ride along in `rest`: no
-- function of the index reads them.
pub record Call : Type 0 where
  pub id : Str
  pub fingerprint : Str
  pub host : Str
  pub host_kind : Str
  pub vendor : Str
  pub method : Str
  pub path : Str
  pub kind : Str
  pub location : Location
  pub language : Str
  pub client : Str
  pub confidence : Confidence
  pub score : ℤ
  pub flags : List Str
  pub rest : List Str
  pub lifecycle : Lifecycle

pub record HostGroup : Type 0 where
  pub host_key : Str
  pub host_kind : Str
  pub vendor : Str
  pub call_count : ℕ
  pub path_count : ℕ
  pub methods : List Str
  pub languages : List Str
  pub max_confidence : Confidence

pub record ScanInfo : Type 0 where
  pub id : Str
  pub commit : Str

-- The tool, repository and statistics records, which Merge copies whole, are left out.
pub record Index : Type 0 where
  pub schema_version : ℕ
  pub scan : ScanInfo
  pub hosts : List HostGroup
  pub calls : List Call

-- lessByPosition
unfoldable pub less_by_position : Call → Call → Bool
unfolding str_eq str_lt
less_by_position =
    by_key str_eq str_lt (λ (c : Call). c.location.file)
      (by_key ◌==◌ ltb (λ (c : Call). c.location.line)
        (by_key ◌==◌ ltb (λ (c : Call). c.location.column)
          (by_key str_eq str_lt (λ (c : Call). c.fingerprint) (λ a b. str_lt a.client b.client))))

-- The `less` of Sort.
unfoldable pub call_less : Call → Call → Bool
unfolding less_by_position
call_less a b =
    if less_by_position a b then true else if less_by_position b a then false else str_lt a.id b.id

-- Sort
unfoldable pub sort_calls : List Call → List Call
unfolding sort_by call_less
sort_calls = sort_by call_less

-- The loop of sortUnique: `seen` holds the texts that were met.
unique_loop : List Str → List Str → List Str
unfolding str_eq
unique_loop seen [] = []
unique_loop seen (s ∷ ss) =
    let taken = s ∷ unique_loop (s ∷ seen) ss in
    let skipped = unique_loop seen ss in
    if is_empty s || any (λ t. str_eq t s) seen then skipped else taken

-- sortUnique
unfoldable pub sort_unique : List Str → List Str
unfolding sort_by unique_loop str_lt
sort_unique ss = sort_by str_lt (unique_loop [] ss)
