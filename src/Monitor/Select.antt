-- ===== src/Monitor/Select.antt =====
-- selectUpstreams, filterSeverity and newOnly of internal/monitor/run.go.
pub mod Reported
use api_integrity_tool.Base.{
  ℕ, zero, Bool, true, false, not, ◌&&◌, ◌||◌, Option, none, some, List, [], ◌∷◌, ◌++◌,
  if◌then◌else◌, any, keep, map, Str, codes, str_eq, str_lt, is_empty, to_lower, sort_by, by_key,
  ltb, leb, find_by,
}
use api_integrity_tool.Model.Severity.{Severity, info, at_least, severity_eq}
use api_integrity_tool.Model.Repo.{Upstream, canonical, slug, key}
use api_integrity_tool.Model.Finding.{Finding}
use api_integrity_tool.Store.State.{State, Result, ok, err}

abbrev pub is_one_of : List Str → Str → Bool
is_one_of words s = any (λ w. str_eq w s) words

abbrev pub is_nil : List Str → Bool
is_nil [] = true
is_nil (s ∷ ss) = false

unfoldable pub is_active : Upstream → Bool
unfolding str_eq
is_active u = is_empty u.status || str_eq u.status (codes "active")

unfoldable pub host_wanted : List Str → Upstream → Bool
unfolding str_eq
host_wanted hosts u = is_nil hosts || is_one_of hosts u.host

-- A repository is named by its canonical form or its slug, in any case.
unfoldable pub repo_wanted : List Str → Upstream → Bool
unfolding str_eq to_lower canonical slug
repo_wanted repos u =
    is_nil repos
    || (is_one_of (map to_lower repos) (to_lower (canonical u.repo))
        || is_one_of (map to_lower repos) (to_lower (slug u.repo)))

unfoldable pub is_selected : List Str → List Str → Upstream → Bool
unfolding is_active host_wanted repo_wanted
is_selected hosts repos u = is_active u && (host_wanted hosts u && repo_wanted repos u)

-- The `less` of selectUpstreams.
unfoldable pub target_less : Upstream → Upstream → Bool
unfolding str_eq str_lt key
target_less =
    by_key str_eq str_lt (λ (u : Upstream). u.host) (λ a b. str_lt (key a.repo) (key b.repo))

-- selectUpstreams
unfoldable pub select_upstreams : List Str → List Str → List Upstream → List Upstream
unfolding is_selected sort_by target_less
select_upstreams hosts repos ups = sort_by target_less (keep (is_selected hosts repos) ups)

-- DropBelow, in hundredths
abbrev pub drop_below : ℕ
drop_below = 25

unfoldable pub is_kept : Severity → Finding → Bool
unfolding at_least severity_eq
is_kept min f =
    not (ltb f.confidence drop_below && severity_eq f.severity info) && at_least f.severity min

-- filterSeverity
unfoldable pub filter_severity : Severity → List Finding → List Finding
unfolding is_kept
filter_severity min fs = keep (is_kept min) fs

abbrev pub print_of : Finding → Str
print_of f = f.fingerprint

-- A read of the map firstSeen: the last finding of a fingerprint tells, and none counts as zero.
unfoldable pub count_seen : Str → ℕ → List Finding → ℕ
unfolding str_eq
count_seen fp n [] = n
count_seen fp n (f ∷ fs) = count_seen fp (if str_eq f.fingerprint fp then f.occurrences else n) fs

abbrev pub add_found : Option Finding → List Finding → List Finding
add_found none out = out
add_found (some f) out = f ∷ out

-- The loop of newOnly over the stored findings.
unfoldable pub new_among : List Finding → List Finding → List Finding
unfolding count_seen str_eq
new_among stored [] = []
new_among stored (f ∷ fresh) =
    let rest = new_among stored fresh in
    if leb (count_seen f.fingerprint 0 stored) 1
    then add_found (find_by print_of f.fingerprint stored) rest
    else rest

-- newOnly; when the store cannot be read every finding counts as new
unfoldable pub new_only : List Finding → Result State → List Finding
unfolding new_among
new_only fresh (err e) = fresh
new_only fresh (ok st) = new_among st.findings fresh
