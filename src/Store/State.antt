-- ===== src/Store/State.antt =====
-- The state document of internal/store/store.go, its normal order, and the locked update cycle.
-- An update is one step under the file lock, which excludes every other process.
use api_integrity_tool.Base.{
  ℕ, ◌≤◌, ◌≡◌, arith, Bool, false, Option, none, some, List, [], take, ltb, if◌then◌else◌, Str,
  str_eq, str_lt, sort_by, by_key, flip, int_eq, int_lt,
}
use api_integrity_tool.Model.Repo.{Upstream, key}
use api_integrity_tool.Model.Decision.{Decision}
use api_integrity_tool.Model.Finding.{Finding, Counts, sort_findings}

pub record UpstreamState : Type 0 where
  pub default_branch : Str
  pub last_head_sha : Str
  pub last_checked_at : ℕ
  pub pushed_at_seen : ℕ
  pub last_release_tag : Str
  pub last_tag_name : Str
  pub spec_paths : List Str
  pub etags : List (Str × Str)
  pub status : Str
  pub last_error : Str
  pub consecutive_failures : ℕ
  pub skip_until_run : ℕ

-- `run_id` of a run is its `ID`, "r_" and the sequence number: the model keeps the number.
pub record Run : Type 0 where
  pub id : ℕ
  pub seq : ℕ
  pub started_at : ℕ
  pub finished_at : Option ℕ
  pub trigger : Str
  pub checked : ℕ
  pub skipped : ℕ
  pub api_calls : ℕ
  pub new_findings : ℕ
  pub counts : Counts
  pub degraded : List Str
  pub errors : List Str
  pub complete : Bool

pub record State : Type 0 where
  pub version : ℕ
  pub updated_at : ℕ
  pub upstreams : List Upstream
  pub decisions : List Decision
  pub findings : List Finding
  pub checks : List (Str × UpstreamState)
  pub runs : List Run
  pub run_seq : ℕ

-- Version
abbrev pub schema_version : ℕ
schema_version = 1

-- MaxRuns
abbrev pub max_runs : ℕ
max_runs = 50

pub data StoreError : Type 0 where
  newer_schema : ℕ → StoreError
  no_finding : Str → StoreError

pub data Result {ℓ} (A : Type ℓ) : Type ℓ where
  ok : A → Result A
  err : StoreError → Result A

-- The `less` for upstreams in normalize: of two prefixes of one path the longer comes first.
unfoldable pub upstream_less : Upstream → Upstream → Bool
unfolding str_eq str_lt int_eq int_lt key
upstream_less =
    by_key str_eq str_lt (λ (u : Upstream). u.host)
      (by_key str_eq (flip str_lt) (λ (u : Upstream). u.path_prefix)
        (by_key int_eq int_lt (λ (u : Upstream). u.priority)
          (λ a b. str_lt (key a.repo) (key b.repo))))

abbrev pub decision_less : Decision → Decision → Bool
decision_less a b = str_lt a.host b.host

abbrev pub run_less : Run → Run → Bool
run_less a b = ltb b.seq a.seq

-- normalize
unfoldable pub normalize : State → State
unfolding sort_by upstream_less sort_findings str_lt
normalize st = record st {
  upstreams = sort_by upstream_less st.upstreams;
  decisions = sort_by decision_less st.decisions;
  findings = sort_findings st.findings;
  runs = take max_runs (sort_by run_less st.runs);
}

abbrev pub empty_state : State
empty_state = record {
  version = schema_version;
  updated_at = 0;
  upstreams = [];
  decisions = [];
  findings = [];
  checks = [];
  runs = [];
  run_seq = 0;
}

-- The state file: absent, or a document that parses.
abbrev pub Disk : Type 0
Disk = Option State

-- Store.readLocked
unfoldable pub read_locked : Disk → Result State
read_locked none = ok empty_state
read_locked (some st) =
    if ltb schema_version st.version then err (newer_schema st.version) else ok st

-- Store.Update at time `now`: what it returns, and the state file that it leaves.
unfoldable pub update : {A : Type 0} → (State → Result (State × A)) → ℕ → Disk → Result A × Disk
unfolding read_locked normalize
update fn now disk = elim (read_locked disk) [
  | err e ↦ (err e, disk)
  | ok st ↦ elim (fn st) [
    | err e ↦ (err e, disk)
    | ok (st', a) ↦
        (ok a, some (normalize (record st' { version = schema_version; updated_at = now })))
  ]
]

-- An update of a readable state that does not fail writes what it computes, in normal order.
pub update-ok :
    {A : Type 0} (fn : State → Result (State × A)) (now : ℕ) (st st' : State) (a : A)
    → st.version ≤ schema_version
    → fn st ≡ ok (st', a)
    → update fn now (some st)
      ≡ (ok a, some (normalize (record st' { version = schema_version; updated_at = now })))
unfolding update read_locked
update-ok fn now st st' a h e = rw (readable st.version h, e, update)
  where
    readable : (v : ℕ) → v ≤ schema_version → ltb schema_version v ≡ false
    readable v h = ground arith
