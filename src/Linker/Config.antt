-- ===== src/Linker/Config.antt =====
-- The links and decisions of the configuration file: internal/config/config.go.
use api_integrity_tool.Base.{Option, none, List, [], ◌∷◌, ◌++◌, Str, codes, map, ℤ}
use api_integrity_tool.Model.Repo.{RepoRef, Role, implementation, Upstream}
use api_integrity_tool.Model.Decision.{Decision, unmonitored, Reason, other, free_text}
use api_integrity_tool.Upstream.Ref.{RepoUrl, Parsed, ok, ◌>>=◌, parse_repo_ref}

pub record UpstreamEntry : Type 0 where
  pub repo : Str
  pub path_prefix : Str
  pub role : Role
  pub ref : Str
  pub priority : ℤ
  pub note : Str

pub record UnmonitoredEntry : Type 0 where
  pub host : Str
  pub reason : Reason

-- What the linker reads of File; the map of the upstreams is a list of pairs.
pub record ConfigFile : Type 0 where
  pub upstreams : List (Str × List UpstreamEntry)
  pub unmonitored_hosts : List UnmonitoredEntry

-- model.SourceConfig
abbrev pub source_config : Str
source_config = codes "config"

abbrev pub role_or_default : Role → Role
role_or_default (Role.other []) = implementation
role_or_default r = r

abbrev pub with_ref : Str → RepoRef → RepoRef
with_ref [] r = r
with_ref (c ∷ s) r = record r { ref = c ∷ s }

-- The upstream of an entry whose repository is read; the dates are set when it is stored.
unfoldable pub entry_upstream : Str → UpstreamEntry → RepoRef → Upstream
entry_upstream host e ref = record {
  host = host;
  repo = with_ref e.ref ref;
  path_prefix = e.path_prefix;
  role = role_or_default e.role;
  priority = e.priority;
  source = source_config;
  confidence = 100;
  note = e.note;
  status = codes "active";
  created_at = 0;
  updated_at = 0;
}

-- model.ReasonOther stands for an empty reason.
abbrev pub reason_or_other : Reason → Reason
reason_or_other (free_text []) = other
reason_or_other r = r

unfoldable pub entry_decision : UnmonitoredEntry → Decision
entry_decision u = record {
  host = u.host;
  kind = unmonitored;
  reason = reason_or_other u.reason;
  decided_by = source_config;
  decided_at = 0;
  expires_at = none;
}

-- ConfiguredDecisions
unfoldable pub configured_decisions : ConfigFile → List Decision
unfolding entry_decision
configured_decisions f = map entry_decision f.unmonitored_hosts

module _ (parse : Str → Option RepoUrl) where
  -- The inner loop of ConfiguredUpstreams.
  unfoldable pub host_upstreams : Str → List UpstreamEntry → Parsed (List Upstream)
  unfolding parse_repo_ref entry_upstream
  host_upstreams host [] = ok []
  host_upstreams host (e ∷ es) = parse_repo_ref parse e.repo >>= λ ref.
      host_upstreams host es >>= λ rest. ok (entry_upstream host e ref ∷ rest)

  -- The loop over the hosts.
  unfoldable pub all_upstreams : List (Str × List UpstreamEntry) → Parsed (List Upstream)
  unfolding host_upstreams
  all_upstreams [] = ok []
  all_upstreams ((host, es) ∷ hosts) =
      host_upstreams host es >>= λ here. all_upstreams hosts >>= λ rest. ok (here ++ rest)

  -- ConfiguredUpstreams
  unfoldable pub configured_upstreams : ConfigFile → Parsed (List Upstream)
  unfolding all_upstreams
  configured_upstreams f = all_upstreams f.upstreams
