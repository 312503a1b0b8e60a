-- ===== src/Linker/Tests.antt =====
-- The theorems on the linker at concrete values, and tests of its operations.
use api_integrity_tool.Base.{
  ◌≡◌, refl, true, false, not, Option, none, some, List, [], ◌∷◌, All, keep, map, length, Str,
  codes, pos,
}
use api_integrity_tool.Model.Repo.{Role, spec_only, Upstream}
use api_integrity_tool.Model.Decision.{noise}
use api_integrity_tool.Model.Samples.{billing_repo, sample_upstream, sample_decision}
use api_integrity_tool.Store.State.{State, empty_state}
use api_integrity_tool.Upstream.Ref.{RepoUrl, ok}
use api_integrity_tool.Upstream.WellKnown.{WellKnown}
use api_integrity_tool.Linker.Config.{
  ConfigFile, UpstreamEntry, entry_upstream, configured_upstreams, configured_decisions,
}
use api_integrity_tool.Linker.Requests.{HostRequest, NeedsLink}
use api_integrity_tool.Linker.Linking.{
  is_config_link, is_config_decision, dated_link, dated_decision, sync_step, empty_report, no_host,
}
use api_integrity_tool.Linker.Auto.{auto_loop, link_host}
use api_integrity_tool.Linker.Sync.{sync_step_lem}
use api_integrity_tool.Linker.Account.{told, note_all, fates, WasFree, auto_loop_lem}
use api_integrity_tool.Linker.Prompt.{Input, prompt, cli_options}

-- No text of these tests is a URL.
abbrev no_urls : Str → Option RepoUrl
no_urls s = none

abbrev billing_entry : UpstreamEntry
billing_entry = record {
  repo = codes "Acme/billing";
  path_prefix = codes "/v1";
  role = Role.other [];
  ref = [];
  priority = pos 2;
  note = [];
}

abbrev sample_config : ConfigFile
sample_config = record {
  upstreams = (codes "api.acme.com", billing_entry ∷ []) ∷ [];
  unmonitored_hosts = record { host = codes "ads.acme.com"; reason = noise } ∷ [];
}

abbrev before : State
before = record empty_state {
  upstreams = sample_upstream [] ∷ [];
  decisions = sample_decision ∷ [];
}

abbrev configured : List Upstream
configured = entry_upstream (codes "api.acme.com") billing_entry billing_repo ∷ []

config_reads : configured_upstreams no_urls sample_config ≡ ok configured
unfolding configured_upstreams entry_upstream
config_reads = refl

sync_step_lem_example :
    let after = sync_step configured (configured_decisions sample_config) 7 before in
    (keep is_config_link after.upstreams ≡ map (dated_link 7) configured)
    × (keep (λ u. not (is_config_link u)) after.upstreams
        ≡ keep (λ u. not (is_config_link u)) before.upstreams)
    × (keep is_config_decision after.decisions
        ≡ map (dated_decision 7) (configured_decisions sample_config))
    × (keep (λ d. not (is_config_decision d)) after.decisions
        ≡ keep (λ d. not (is_config_decision d)) before.decisions)
    × (sync_step configured (configured_decisions sample_config) 7 after ≡ after)
sync_step_lem_example = sync_step_lem no_urls sample_config configured 7 before config_reads

abbrev request : Str → HostRequest
request host = record {
  host = host;
  endpoint_count = 1;
  sample_endpoints = [];
  symbolic = false;
  guesses = [];
}

abbrev sample_table : List WellKnown
sample_table =
    record {
      host = codes "*.stripe.com";
      vendor = codes "Stripe";
      repo = codes "stripe/openapi";
      role = spec_only;
    }
    ∷ []

abbrev requests : List HostRequest
requests =
    request (codes "api.acme.com") ∷ request (codes "api.stripe.com") ∷ request (codes "self") ∷ []

loop_ends :
    (auto_loop no_urls sample_table 7 before requests empty_report (some before)).error ≡ none
unfolding auto_loop
loop_ends = refl

loop_test :
    let rep =
      (auto_loop no_urls sample_table 7 before requests empty_report (some before)).report in
    (map (λ (u : Upstream). u.repo.name) rep.linked ≡ codes "openapi" ∷ [])
    × (map (λ (n : NeedsLink). n.host) rep.needs_link ≡ codes "self" ∷ [])
    × (rep.already_linked ≡ 1)
unfolding auto_loop
loop_test = (refl, refl, refl)

auto_loop_lem_example :
    let left = auto_loop no_urls sample_table 7 before requests empty_report (some before) in
    (left.report ≡ note_all (fates no_urls sample_table 7 before requests) empty_report)
    × (told left.report ≡ length requests)
    × All (WasFree no_urls sample_table 7 before) left.report.linked
auto_loop_lem_example = auto_loop_lem no_urls sample_table 7 before requests (some before) loop_ends

abbrev need : Str → NeedsLink
need host = record {
  host = host;
  endpoint_count = 1;
  sample_endpoints = [];
  suggested_repo = [];
  suggested_why = [];
  symbolic = false;
}

abbrev needs : List NeedsLink
needs = need (codes "a.dev") ∷ need (codes "b.dev") ∷ need (codes "c.dev") ∷ []

-- The first host is linked, the second reference is no repository, and the third is not asked about.
abbrev typed : Input
typed = record { lines = codes "Acme/billing" ∷ codes "nothing" ∷ []; tail = [] }

prompt-test :
    map (λ (n : NeedsLink). n.host) (prompt no_urls 7 needs true (pos 2) typed none).remaining
    ≡ codes "b.dev" ∷ codes "c.dev" ∷ []
unfolding prompt
prompt-test = refl

link-test :
    link_host no_urls (codes " ") (codes "Acme/billing") cli_options 7 none ≡ (some no_host, none)
unfolding link_host
link-test = refl
