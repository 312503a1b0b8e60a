-- ===== src/Store/Runs.antt =====
-- The runs and check states of internal/store/store.go.
pub mod History
use api_integrity_tool.Base.{
  ℕ, ◌+◌, Bool, true, false, Option, none, some, List, [], ◌∷◌, ◌++◌, if◌then◌else◌, ◌==◌, Str,
  str_eq,
}
use api_integrity_tool.Model.Finding.{Counts}
use api_integrity_tool.Store.State.{State, Disk, Result, ok, Run, UpstreamState, update}

abbrev pub no_counts : Counts
no_counts = record { breaking = 0; risky = 0; info = 0; total = 0 }

-- The record that StartRun allocates as number `seq`.
abbrev pub new_run : ℕ → Str → ℕ → Run
new_run seq trigger now = record {
  id = seq;
  seq = seq;
  started_at = now;
  finished_at = none;
  trigger = trigger;
  checked = 0;
  skipped = 0;
  api_calls = 0;
  new_findings = 0;
  counts = no_counts;
  degraded = [];
  errors = [];
  complete = false;
}

-- The function that StartRun hands to Update.
unfoldable pub start_step : Str → ℕ → State → State × Run
start_step trigger now st =
    let run = new_run (st.run_seq + 1) trigger now in
    (record st { run_seq = st.run_seq + 1; runs = st.runs ++ run ∷ [] }, run)

-- Store.StartRun
unfoldable pub start_run : Str → ℕ → Disk → Result Run × Disk
unfolding update start_step
start_run trigger now disk = update (λ st. ok (start_step trigger now st)) now disk

-- The loop of FinishRun: the first record of the id is replaced, or the run is appended.
unfoldable pub replace_run : Run → List Run → List Run
replace_run run [] = run ∷ []
replace_run run (r ∷ rs) =
    let rest = replace_run run rs in if r.id == run.id then run ∷ rs else r ∷ rest

-- The function that FinishRun hands to Update.
unfoldable pub finish_step : Run → ℕ → State → State
unfolding replace_run
finish_step run now st = record st {
  runs = replace_run (record run { finished_at = some now; complete = true }) st.runs;
}

-- Store.FinishRun
unfoldable pub finish_run : Run → ℕ → Disk → Result (Unit {0}) × Disk
unfolding update finish_step
finish_run run now disk = update (λ st. ok (finish_step run now st, tt)) now disk

-- A write to the map of check states.
unfoldable pub set_check :
    Str → UpstreamState → List (Str × UpstreamState) → List (Str × UpstreamState)
unfolding str_eq
set_check k us [] = (k, us) ∷ []
set_check k us ((j, old) ∷ rest) =
    let onward = set_check k us rest in if str_eq j k then (k, us) ∷ rest else (j, old) ∷ onward

-- A read of the map of check states.
unfoldable pub get_check : Str → List (Str × UpstreamState) → Option UpstreamState
unfolding str_eq
get_check k [] = none
get_check k ((j, us) ∷ rest) =
    let onward = get_check k rest in if str_eq j k then some us else onward

-- Store.SetCheckState
unfoldable pub set_check_state : Str → UpstreamState → ℕ → Disk → Result (Unit {0}) × Disk
unfolding update set_check
set_check_state k us now disk =
    update (λ st. ok (record st { checks = set_check k us st.checks }, tt)) now disk
