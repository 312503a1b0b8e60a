-- ===== src/Store/Links.antt =====
-- The links and decisions of internal/store/store.go, and the queries over them.
pub mod Prefixes
pub mod Triples
pub mod Decisions
use api_integrity_tool.Base.{
  ℕ, zero, ◌+◌, ◌*◌, Bool, true, false, not, ◌&&◌, ◌||◌, Option, none, some, List, [], ◌∷◌, ◌++◌,
  length, keep, any, ltb, ◌==◌, if◌then◌else◌, Str, codes, is_empty, str_eq, find_first,
}
use api_integrity_tool.Model.Repo.{Role, Upstream, implementation, key, matches}
use api_integrity_tool.Model.Decision.{Decision, DecisionKind, later, active}
use api_integrity_tool.Store.State.{State, Disk, Result, ok, update}

-- dropDecision
unfoldable pub drop_decision : List Decision → Str → List Decision
unfolding str_eq
drop_decision ds host = keep (λ d. not (str_eq d.host host)) ds

-- The link has the same host, repository key and path prefix.
unfoldable pub same_triple : Upstream → Upstream → Bool
unfolding str_eq key
same_triple e u =
    str_eq e.host u.host && str_eq (key e.repo) (key u.repo) && str_eq e.path_prefix u.path_prefix

pub default_role : Role → Role
default_role (Role.other []) = implementation
default_role r = r

-- The defaults that LinkUpstream fills in.
unfoldable pub complete_link : ℕ → Upstream → Upstream
unfolding default_role
complete_link now u = record u {
  role = default_role u.role;
  status = if is_empty u.status then codes "active" else u.status;
  updated_at = now;
}

-- The loop of LinkUpstream: the first link of the same triple is replaced.
unfoldable pub replace_link : Upstream → List Upstream → Option (List Upstream)
replace_link u [] = none
replace_link u (e ∷ es) =
    let rest = replace_link u es in
    if same_triple e u
    then some (record u { created_at = e.created_at } ∷ es)
    else elim rest [ none ↦ none | some es' ↦ some (e ∷ es') ]

-- The function that LinkUpstream hands to Update.
unfoldable pub link_step : Upstream → ℕ → State → State
unfolding complete_link replace_link drop_decision same_triple
link_step link now st =
    let u = complete_link now link in
    elim (replace_link u st.upstreams) [
      | some us ↦ record st { upstreams = us }
      | none ↦ record st {
        upstreams = st.upstreams ++ record u { created_at = now } ∷ [];
        decisions = drop_decision st.decisions u.host;
      }
    ]

-- Store.LinkUpstream
unfoldable pub link_upstream : Upstream → ℕ → Disk → Result (Unit {0}) × Disk
unfolding update link_step
link_upstream u now disk = update (λ st. ok (link_step u now st, tt)) now disk

-- The function that UnlinkHost hands to Update, with the number of links that it removes.
unfoldable pub unlink_step : Str → State → Result (State × ℕ)
unfolding str_eq
unlink_step host st = ok (
  record st { upstreams = keep (λ u. not (str_eq u.host host)) st.upstreams },
  length (keep (λ u. str_eq u.host host) st.upstreams),
)

-- Store.UnlinkHost
unfoldable pub unlink_host : Str → ℕ → Disk → Result ℕ × Disk
unfolding update unlink_step
unlink_host host now disk = update (unlink_step host) now disk

-- 7 * 24 * time.Hour, in nanoseconds
abbrev pub week : ℕ
week = 604_800_000_000_000

abbrev set_expiry : DecisionKind → Option ℕ → ℕ → Option ℕ
set_expiry later none decided = some (decided + week)
set_expiry _ expires decided = expires

-- The dates that SetDecision fills in.
unfoldable pub dated : ℕ → Decision → Decision
dated now d =
    let decided = if d.decided_at == 0 then now else d.decided_at in
    record d { decided_at = decided; expires_at = set_expiry d.kind d.expires_at decided }

-- The function that SetDecision hands to Update.
unfoldable pub decide_step : Decision → ℕ → State → State
unfolding drop_decision dated
decide_step d now st = record st {
  decisions = drop_decision st.decisions d.host ++ dated now d ∷ [];
}

-- Store.SetDecision
unfoldable pub set_decision : Decision → ℕ → Disk → Result (Unit {0}) × Disk
unfolding update decide_step
set_decision d now disk = update (λ st. ok (decide_step d now st, tt)) now disk

-- Store.ClearDecision
unfoldable pub clear_decision : Str → ℕ → Disk → Result (Unit {0}) × Disk
unfolding update drop_decision
clear_decision host now disk =
    update (λ st. ok (record st { decisions = drop_decision st.decisions host }, tt)) now disk

-- State.UpstreamsForHost
unfoldable pub upstreams_for_host : State → Str → List Upstream
unfolding str_eq
upstreams_for_host st host = keep (λ u. str_eq u.host host) st.upstreams

-- State.UpstreamsForEndpoint
unfoldable pub upstreams_for_endpoint : State → Str → Str → List Upstream
unfolding upstreams_for_host matches
upstreams_for_endpoint st host path = keep (λ u. matches u path) (upstreams_for_host st host)

-- State.DecisionFor
unfoldable pub decision_for : State → Str → ℕ → Option Decision
unfolding str_eq active
decision_for st host now = find_first (λ d. str_eq d.host host && active d now) st.decisions

-- State.NeedsLinking
unfoldable pub needs_linking : State → Str → ℕ → Bool
unfolding upstreams_for_host decision_for
needs_linking st host now = elim (upstreams_for_host st host) [
  | u ∷ us ↦ false
  | [] ↦ elim (decision_for st host now) [ none ↦ true | some d ↦ false ]
]

-- The loop of LinkedRepos: `seen` holds the keys that were met.
linked_loop : List Str → List Upstream → List Upstream
unfolding str_eq key
linked_loop seen [] = []
linked_loop seen (u ∷ us) =
    let skipped = linked_loop seen us in
    let taken = u ∷ linked_loop (key u.repo ∷ seen) us in
    if not (is_empty u.status) && not (str_eq u.status (codes "active"))
    then skipped
    else if any (λ k. str_eq k (key u.repo)) seen
    then skipped
    else taken

-- State.LinkedRepos
unfoldable pub linked_repos : State → List Upstream
unfolding linked_loop
linked_repos st = linked_loop [] st.upstreams
