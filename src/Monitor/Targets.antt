-- ===== src/Monitor/Targets.antt =====
-- targetsFor of internal/monitor/run.go: the calls of the index that belong to an upstream.
pub mod Credit
use api_integrity_tool.Base.{
  ℕ, Bool, true, false, not, ◌&&◌, ◌||◌, Option, none, some, List, [], ◌∷◌, ◌++◌, if◌then◌else◌,
  any, keep, map, Str, codes, str_eq, is_empty, to_lower, ℤ, pos, negsuc, int_lt, ◌+◌, ◌-◌, ltb,
}
use api_integrity_tool.Model.Repo.{Upstream, matches}
use api_integrity_tool.Index.Calls.{Call, is_removed, confidence_for}

-- The field HostMappings of config.File; a configuration that is nil maps nothing.
abbrev pub HostMappings : Type 0
HostMappings = List (Str × List Str)

-- strings.EqualFold
unfoldable pub equal_fold : Str → Str → Bool
unfolding str_eq to_lower
equal_fold a b = str_eq (to_lower a) (to_lower b)

-- File.ResolveHost
unfoldable pub resolve_host : HostMappings → Str → List Str
unfolding str_eq
resolve_host [] host = host ∷ []
resolve_host ((h, []) ∷ rest) host =
    let onward = resolve_host rest host in if str_eq h host then host ∷ [] else onward
resolve_host ((h, g ∷ gs) ∷ rest) host =
    let onward = resolve_host rest host in if str_eq h host then g ∷ gs else onward

-- hostMatches
unfoldable pub host_matches : HostMappings → Str → Str → Bool
unfolding equal_fold resolve_host
host_matches config call_host upstream_host =
    equal_fold call_host upstream_host
    || any (λ h. equal_fold h upstream_host) (resolve_host config call_host)

-- hasFlag
unfoldable pub has_flag : List Str → Str → Bool
unfolding str_eq
has_flag flags want = any (λ f. str_eq f want) flags

-- min(100, score+classify.SymbolicHostPenalty)
unfoldable pub credit_score : ℤ → ℤ
unfolding int_lt
credit_score (pos n) = if ltb 100 (n + 15) then pos 100 else pos (n + 15)
credit_score (negsuc n) = if ltb n 15 then pos (14 - n) else negsuc (n - 15)

-- The host of the call is declared to be the upstream's, and is not its name already.
unfoldable pub is_declared : HostMappings → Call → Str → Bool
unfolding equal_fold resolve_host
is_declared config c upstream_host =
    any (λ h. equal_fold h upstream_host && not (equal_fold c.host upstream_host))
      (resolve_host config c.host)

-- creditDeclaredHost
unfoldable pub credit_declared_host : HostMappings → Call → Str → Call
unfolding has_flag is_declared credit_score confidence_for
credit_declared_host config c upstream_host =
    if has_flag c.flags (codes "symbolic_host") && is_declared config c upstream_host
    then record c {
      score = credit_score c.score;
      confidence = confidence_for (credit_score c.score);
      flags = c.flags ++ codes "host_declared" ∷ [];
    }
    else c

-- targetsFor, whose NewTargetSet leaves out the removed calls
unfoldable pub targets_for : HostMappings → Upstream → List Call → List Call
unfolding host_matches matches credit_declared_host is_removed
targets_for config u [] = []
targets_for config u (c ∷ calls) =
    let rest = targets_for config u calls in
    if host_matches config c.host u.host
      && (matches u c.path && not (is_removed c.lifecycle.status))
    then credit_declared_host config c u.host ∷ rest
    else rest
