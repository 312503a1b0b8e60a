-- ===== src/Index/Hosts.antt =====
-- BuildHosts of internal/index/model.go: the summary that is recomputed for each host.
use api_integrity_tool.Base.{
  ℕ, ◌+◌, not, ◌&&◌, List, [], ◌∷◌, ◌++◌, if◌then◌else◌, any, keep, map, length, Str, is_empty,
  str_eq, str_lt, sort_by, ℤ, negsuc, int_lt,
}
use api_integrity_tool.Index.Calls.{Call, HostGroup, confidence_for, is_removed}

-- A map from texts to true, as the list of its keys.
unfoldable pub add_to_set : Str → List Str → List Str
unfolding str_eq
add_to_set s set = if any (λ t. str_eq t s) set then set else set ++ s ∷ []

-- sortedSetKeys
unfoldable pub sorted_set_keys : List Str → List Str
unfolding sort_by str_lt
sorted_set_keys set = sort_by str_lt (keep (λ s. not (is_empty s)) set)

pub record HostAcc : Type 0 where
  pub host : Str
  pub host_kind : Str
  pub vendor : Str
  pub call_count : ℕ
  pub paths : List Str
  pub methods : List Str
  pub langs : List Str
  pub best : ℤ

new_acc : Str → Call → HostAcc
new_acc vendor c = record {
  host = c.host;
  host_kind = c.host_kind;
  vendor = vendor;
  call_count = 0;
  paths = [];
  methods = [];
  langs = [];
  best = negsuc 0;
}

-- What one call adds to the summary of its host.
unfoldable pub add_call : Call → HostAcc → HostAcc
unfolding add_to_set int_lt
add_call c a = record a {
  vendor = if is_empty a.vendor && not (is_empty c.vendor) then c.vendor else a.vendor;
  call_count = a.call_count + 1;
  paths = add_to_set c.path a.paths;
  methods = add_to_set c.method a.methods;
  langs = add_to_set c.language a.langs;
  best = if int_lt a.best c.score then c.score else a.best;
}

-- A write to the map of vendors or a read of it; the zero value is the empty text.
unfoldable pub vendor_of : Str → List (Str × Str) → Str
unfolding str_eq
vendor_of host [] = []
vendor_of host ((h, v) ∷ rest) =
    let onward = vendor_of host rest in if str_eq h host then v else onward

-- One round of the loop of BuildHosts.
unfoldable pub add_to_hosts : List (Str × Str) → Call → List HostAcc → List HostAcc
unfolding add_call new_acc vendor_of str_eq
add_to_hosts vendors c [] = add_call c (new_acc (vendor_of c.host vendors) c) ∷ []
add_to_hosts vendors c (a ∷ rest) =
    let onward = add_to_hosts vendors c rest in
    if str_eq a.host c.host then add_call c a ∷ rest else a ∷ onward

unfoldable pub host_loop : List (Str × Str) → List Call → List HostAcc → List HostAcc
unfolding add_to_hosts is_removed
host_loop vendors [] accs = accs
host_loop vendors (c ∷ cs) accs =
    host_loop vendors cs
      (if is_removed c.lifecycle.status then accs else add_to_hosts vendors c accs)

unfoldable pub to_group : HostAcc → HostGroup
unfolding sorted_set_keys confidence_for
to_group a = record {
  host_key = a.host;
  host_kind = a.host_kind;
  vendor = a.vendor;
  call_count = a.call_count;
  path_count = length a.paths;
  methods = sorted_set_keys a.methods;
  languages = sorted_set_keys a.langs;
  max_confidence = confidence_for a.best;
}

-- BuildHosts
unfoldable pub build_hosts : List Call → List (Str × Str) → List HostGroup
unfolding host_loop to_group sort_by str_lt
build_hosts calls vendors =
    sort_by (λ (a b : HostGroup). str_lt a.host_key b.host_key)
      (map to_group (host_loop vendors calls []))
