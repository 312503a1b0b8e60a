-- ===== src/Linker/Requests.antt =====
-- HostRequestsFromIndex and needsLinkFor of internal/linker/linker.go.
use api_integrity_tool.Base.{
  ℕ, Bool, ◌||◌, Option, List, [], ◌∷◌, ◌++◌, if◌then◌else◌, leb, ltb, ◌==◌, length, take, map, Str,
  codes, str_eq, str_lt, has_prefix, sort_by, by_key, flip, int_lt,
}
use api_integrity_tool.Model.Repo.{canonical}
use api_integrity_tool.Model.Finding.{EndpointRef}
use api_integrity_tool.Index.Calls.{Call, is_removed}
use api_integrity_tool.Normalize.Segments.{itoa}
use api_integrity_tool.Upstream.Ref.{RepoUrl}
use api_integrity_tool.Upstream.WellKnown.{WellKnown, Guess, guess_repo}

pub record HostRequest : Type 0 where
  pub host : Str
  pub endpoint_count : ℕ
  pub sample_endpoints : List EndpointRef
  pub symbolic : Bool
  pub guesses : List Guess

pub record NeedsLink : Type 0 where
  pub host : Str
  pub endpoint_count : ℕ
  pub sample_endpoints : List Str
  pub suggested_repo : Str
  pub suggested_why : Str
  pub symbolic : Bool

-- The calls of one host, in a map from hosts to calls.
unfoldable pub add_call : Call → List (Str × List Call) → List (Str × List Call)
unfolding str_eq
add_call c [] = (c.host, c ∷ []) ∷ []
add_call c ((host, calls) ∷ rest) =
    let onward = (host, calls) ∷ add_call c rest in
    if str_eq host c.host then (host, calls ++ c ∷ []) ∷ rest else onward

unfoldable pub by_host : List (Str × List Call) → List Call → List (Str × List Call)
unfolding add_call is_removed
by_host hosts [] = hosts
by_host hosts (c ∷ calls) =
    by_host (if is_removed c.lifecycle.status then hosts else add_call c hosts) calls

unfoldable pub endpoint_of : Call → EndpointRef
unfolding itoa
endpoint_of c = record {
  id = c.id;
  method = c.method;
  path = c.path;
  call_site = c.location.file ++ (codes ":" ++ itoa c.location.line);
}

-- The `less` of the requests.
unfoldable pub request_less : HostRequest → HostRequest → Bool
unfolding str_lt
request_less =
    by_key ◌==◌ (flip ltb) (λ (r : HostRequest). r.endpoint_count) (λ a b. str_lt a.host b.host)

module _ (parse : Str → Option RepoUrl) (table : List WellKnown) where
  unfoldable pub host_request : Str → Str × List Call → HostRequest
  unfolding has_prefix str_eq guess_repo sort_by int_lt endpoint_of
  host_request remote (host, calls) = record {
    host = host;
    endpoint_count = length calls;
    sample_endpoints =
        map endpoint_of (take 5 (sort_by (λ (a b : Call). int_lt b.score a.score) calls));
    symbolic = has_prefix host (codes "${") || str_eq host (codes "self");
    guesses = guess_repo parse table host remote;
  }

  -- HostRequestsFromIndex
  unfoldable pub host_requests : List Call → Str → List HostRequest
  unfolding by_host host_request sort_by request_less
  host_requests calls remote = sort_by request_less (map (host_request remote) (by_host [] calls))

unfoldable pub suggestion : List Guess → Str × Str
unfolding canonical
suggestion [] = ([], [])
suggestion (g ∷ gs) = if leb 30 g.confidence then (canonical g.repo, g.why) else ([], [])

-- needsLinkFor
unfoldable pub needs_link_for : HostRequest → NeedsLink
unfolding suggestion
needs_link_for req = record {
  host = req.host;
  endpoint_count = req.endpoint_count;
  sample_endpoints =
      map (λ (e : EndpointRef). e.method ++ (codes " " ++ e.path)) req.sample_endpoints;
  suggested_repo = (suggestion req.guesses).0;
  suggested_why = (suggestion req.guesses).1;
  symbolic = req.symbolic;
}
