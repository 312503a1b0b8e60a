-- ===== src/Linker/Auto.antt =====
-- AutoLink, Link, Unmonitor and Defer of internal/linker/linker.go.
use api_integrity_tool.Base.{
  ℕ, not, Option, none, some, List, [], ◌∷◌, if◌then◌else◌, Str, codes, is_empty, trim_space, ℤ,
}
use api_integrity_tool.Model.Repo.{RepoRef, Role, Upstream, valid}
use api_integrity_tool.Model.Decision.{Decision, unmonitored, later, Reason, free_text}
use api_integrity_tool.Store.State.{State, Disk, read_locked}
use api_integrity_tool.Store.State
use api_integrity_tool.Store.Links.{link_upstream, set_decision}
use api_integrity_tool.Upstream.Ref.{RepoUrl, Parsed, parse_repo_ref}
use api_integrity_tool.Upstream.Ref
use api_integrity_tool.Upstream.WellKnown.{WellKnown}
use api_integrity_tool.Linker.Config.{ConfigFile, role_or_default, with_ref, reason_or_other}
use api_integrity_tool.Linker.Requests.{HostRequest}
use api_integrity_tool.Linker.Linking.{
  LinkError, bad_reference, bad_store, no_host, bad_role, Report, Fate, link, note_fate,
  empty_report, store_error, sync_config, fate,
}

-- What AutoLink returns: its report, its error, and the state file that it leaves.
pub record Linked : Type 0 where
  pub report : Report
  pub error : Option LinkError
  pub disk : Disk

-- `if err != nil { return rep, err }`, before the rest
abbrev pub stop_or : Option LinkError → Report → Disk → Linked → Linked
stop_or (some e) rep disk rest = record { report = rep; error = some e; disk = disk }
stop_or none rep disk rest = rest

-- The store's part in one round: only a link is written.
unfoldable pub store_fate : Fate → ℕ → Disk → Option LinkError × Disk
unfolding link_upstream
store_fate (link u) now disk = let done = link_upstream u now disk in (store_error done.0, done.1)
store_fate _ now disk = (none, disk)

module _ (parse : Str → Option RepoUrl) (table : List WellKnown) (now : ℕ) where
  -- The loop of AutoLink. It asks the state that was read before the loop.
  unfoldable pub auto_loop : State → List HostRequest → Report → Disk → Linked
  unfolding fate store_fate
  auto_loop st [] rep disk = record { report = rep; error = none; disk = disk }
  auto_loop st (req ∷ reqs) rep disk =
      let what = fate parse table now st req in
      let done = store_fate what now disk in
      let rest = auto_loop st reqs (note_fate what rep) done.1 in stop_or done.0 rep done.1 rest

  abbrev auto_from : List HostRequest → State.Result State → Disk → Linked
  auto_from reqs (State.err e) disk = record {
    report = empty_report;
    error = some (bad_store e);
    disk = disk;
  }
  auto_from reqs (State.ok st) disk = auto_loop st reqs empty_report disk

  -- AutoLink
  unfoldable pub auto_link : Option ConfigFile → List HostRequest → Disk → Linked
  unfolding sync_config auto_loop read_locked
  auto_link config reqs disk =
      let synced = sync_config parse table now config disk in
      let rest = auto_from reqs (read_locked synced.1) synced.1 in
      stop_or synced.0 empty_report synced.1 rest

pub record LinkOptions : Type 0 where
  pub path_prefix : Str
  pub role : Role
  pub ref : Str
  pub note : Str
  pub priority : ℤ
  pub source : Str

abbrev source_or_cli : Str → Str
source_or_cli [] = codes "cli"
source_or_cli (c ∷ s) = c ∷ s

-- The upstream that Link records, or its error.
unfoldable pub link_of : Str → Parsed RepoRef → LinkOptions → Option Upstream × Option LinkError
unfolding valid
link_of host (Ref.fail e) opts = (none, some (bad_reference e))
link_of host (Ref.ok ref) opts =
    let role = role_or_default opts.role in
    if not (valid role) then (none, some (bad_role role)) else (
      some (record {
        host = host;
        repo = with_ref opts.ref ref;
        path_prefix = opts.path_prefix;
        role = role;
        priority = opts.priority;
        source = source_or_cli opts.source;
        confidence = 100;
        note = opts.note;
        status = codes "active";
        created_at = 0;
        updated_at = 0;
      }),
      none,
    )

unfoldable pub store_link : Option Upstream × Option LinkError → ℕ → Disk → Option LinkError × Disk
unfolding link_upstream
store_link (none, e) now disk = (e, disk)
store_link (some u, e) now disk =
    let done = link_upstream u now disk in (store_error done.0, done.1)

-- Link: its error, and the state file that it leaves
unfoldable pub link_host :
    (Str → Option RepoUrl) → Str → Str → LinkOptions → ℕ → Disk → Option LinkError × Disk
unfolding trim_space parse_repo_ref link_of store_link
link_host parse host repo opts now disk =
    let name = trim_space host in
    if is_empty name
    then (some no_host, disk)
    else store_link (link_of name (parse_repo_ref parse repo) opts) now disk

-- Unmonitor
unfoldable pub unmonitor : Str → Reason → Str → ℕ → Disk → Option LinkError × Disk
unfolding set_decision
unmonitor host reason by now disk =
    let d : Decision = record {
      host = host;
      kind = unmonitored;
      reason = reason_or_other reason;
      decided_by = by;
      decided_at = now;
      expires_at = none;
    } in
    let done = set_decision d now disk in (store_error done.0, done.1)

-- Defer
unfoldable pub defer : Str → Str → ℕ → Disk → Option LinkError × Disk
unfolding set_decision
defer host by now disk =
    let d : Decision = record {
      host = host;
      kind = later;
      reason = free_text [];
      decided_by = by;
      decided_at = now;
      expires_at = none;
    } in
    let done = set_decision d now disk in (store_error done.0, done.1)
