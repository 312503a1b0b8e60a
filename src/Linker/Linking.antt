-- ===== src/Linker/Linking.antt =====
-- The Linker of internal/linker/linker.go. Each operation takes the time, the table of well-known hosts
-- and the state file. The time is read once for an operation, of the store too.
use api_integrity_tool.Base.{
  ℕ, ◌+◌, Bool, not, Option, none, some, List, [], ◌∷◌, ◌++◌, keep, map, Str, codes, str_eq, ℤ,
}
use api_integrity_tool.Model.Repo.{RepoRef, Role, Upstream}
use api_integrity_tool.Model.Decision.{
  Decision, Reason, free_text, closed_source, internal, third_party_no_repo, noise, other,
}
use api_integrity_tool.Store.State.{State, Disk, StoreError, update, read_locked}
use api_integrity_tool.Store.State
use api_integrity_tool.Store.Links.{upstreams_for_host, decision_for}
use api_integrity_tool.Upstream.Ref.{RepoUrl, RefError, Parsed, parse_repo_ref}
use api_integrity_tool.Upstream.Ref
use api_integrity_tool.Upstream.WellKnown.{WellKnown, lookup_well_known}
use api_integrity_tool.Linker.Config.{
  ConfigFile, source_config, configured_upstreams, configured_decisions,
}
use api_integrity_tool.Linker.Requests.{HostRequest, NeedsLink, needs_link_for}

pub data LinkError : Type 0 where
  bad_reference : RefError → LinkError
  bad_store : StoreError → LinkError
  no_host : LinkError
  bad_role : Role → LinkError

pub record Report : Type 0 where
  pub linked : List Upstream
  pub unmonitored_hosts : List Str
  pub needs_link : List NeedsLink
  pub already_linked : ℕ

abbrev pub is_config_link : Upstream → Bool
is_config_link u = str_eq u.source source_config

abbrev pub is_config_decision : Decision → Bool
is_config_decision d = str_eq d.decided_by source_config

abbrev pub dated_link : ℕ → Upstream → Upstream
dated_link now u = record u { created_at = now; updated_at = now }

abbrev pub dated_decision : ℕ → Decision → Decision
dated_decision now d = record d { decided_at = now }

-- The function that SyncConfig hands to Update.
unfoldable pub sync_step : List Upstream → List Decision → ℕ → State → State
unfolding str_eq
sync_step ups ds now st = record st {
  upstreams = keep (λ u. not (is_config_link u)) st.upstreams ++ map (dated_link now) ups;
  decisions = keep (λ d. not (is_config_decision d)) st.decisions ++ map (dated_decision now) ds;
}

abbrev pub store_error : {A : Type 0} → State.Result A → Option LinkError
store_error (State.ok a) = none
store_error (State.err e) = some (bad_store e)

-- What is done with the upstreams of the configuration.
unfoldable pub sync_with :
    Parsed (List Upstream) → List Decision → ℕ → Disk → Option LinkError × Disk
unfolding update sync_step
sync_with (Ref.fail e) ds now disk = (some (bad_reference e), disk)
sync_with (Ref.ok ups) ds now disk =
    let done = update (λ st. State.ok (sync_step ups ds now st, tt)) now disk in
    (store_error done.0, done.1)

-- The text of a reason.
abbrev pub reason_text : Reason → Str
reason_text closed_source = codes "closed_source"
reason_text internal = codes "internal"
reason_text third_party_no_repo = codes "third_party_no_repo"
reason_text noise = codes "noise"
reason_text other = codes "other"
reason_text (free_text s) = s

-- What AutoLink does with a request.
pub data Fate : Type 0 where
  already : Fate
  watched_not : Str → Fate
  link : Upstream → Fate
  ask : NeedsLink → Fate

-- The upstream of a well-known host.
unfoldable pub known_upstream : Str → WellKnown → RepoRef → Upstream
known_upstream host wk ref = record {
  host = host;
  repo = ref;
  path_prefix = [];
  role = wk.role;
  priority = ℤ.pos 0;
  source = codes "wellknown";
  confidence = 100;
  note = wk.vendor;
  status = codes "active";
  created_at = 0;
  updated_at = 0;
}

unfoldable pub table_fate : HostRequest → WellKnown → Parsed RepoRef → Fate
unfolding known_upstream needs_link_for
table_fate req wk (Ref.ok ref) = link (known_upstream req.host wk ref)
table_fate req wk (Ref.fail e) = ask (needs_link_for req)

-- The tests of the loop of AutoLink, in their order: the links of the host, its decision, and the entry
-- of the table.
unfoldable pub fate_of :
    HostRequest
    → (WellKnown → Parsed RepoRef)
    → List Upstream
    → Option Decision
    → Option WellKnown
    → Fate
unfolding table_fate needs_link_for
fate_of req ref (u ∷ us) decision entry = already
fate_of req ref [] (some d) entry =
    watched_not (req.host ++ (codes " (" ++ (reason_text d.reason ++ codes ")")))
fate_of req ref [] none none = ask (needs_link_for req)
fate_of req ref [] none (some wk) = table_fate req wk (ref wk)

module _ (parse : Str → Option RepoUrl) (table : List WellKnown) (now : ℕ) where
  -- SyncConfig
  unfoldable pub sync_config : Option ConfigFile → Disk → Option LinkError × Disk
  unfolding configured_upstreams configured_decisions sync_with
  sync_config none disk = (none, disk)
  sync_config (some f) disk =
      sync_with (configured_upstreams parse f) (configured_decisions f) now disk

  unfoldable pub fate : State → HostRequest → Fate
  unfolding upstreams_for_host decision_for lookup_well_known parse_repo_ref fate_of
  fate st req =
      fate_of req (λ (wk : WellKnown). parse_repo_ref parse wk.repo)
        (upstreams_for_host st req.host) (decision_for st req.host now)
        (lookup_well_known table req.host)

abbrev pub note_fate : Fate → Report → Report
note_fate already rep = record rep { already_linked = rep.already_linked + 1 }
note_fate (watched_not s) rep = record rep { unmonitored_hosts = rep.unmonitored_hosts ++ s ∷ [] }
note_fate (link u) rep = record rep { linked = rep.linked ++ u ∷ [] }
note_fate (ask n) rep = record rep { needs_link = rep.needs_link ++ n ∷ [] }

abbrev pub empty_report : Report
empty_report = record { linked = []; unmonitored_hosts = []; needs_link = []; already_linked = 0 }
