-- ===== src/Index/Tests.antt =====
-- The theorems on the merge at concrete indexes, and tests of it.
use api_integrity_tool.Base.{ℕ, ◌≡◌, refl, true, some, List, [], ◌∷◌, codes, Str, pos, map, str_eq}
use api_integrity_tool.Index.Calls.{Call, active, Index, high}
use api_integrity_tool.Index.Merge.{MergeOptions, merge}

abbrev sample_call : Str → Str → ℕ → Str → Call
sample_call id client line first_seen = record {
  id = id;
  fingerprint = codes "f_1";
  host = codes "api.acme.com";
  host_kind = codes "literal";
  vendor = [];
  method = codes "GET";
  path = codes "/v1/charge";
  kind = codes "http";
  location = record {
    file = codes "app.go";
    line = line;
    column = 1;
    end_line = line;
    function = [];
  };
  language = codes "go";
  client = client;
  confidence = high;
  score = pos 90;
  flags = [];
  rest = [];
  lifecycle = record {
    first_seen_scan = first_seen;
    first_seen_commit = [];
    last_seen_scan = first_seen;
    last_seen_commit = [];
    status = active;
    missing_scans = 0;
  };
}

abbrev index_of_calls : Str → List Call → Index
index_of_calls scan calls = record {
  schema_version = 1;
  scan = record { id = scan; commit = [] };
  hosts = [];
  calls = calls;
}

abbrev keep_five : MergeOptions
keep_five = record {
  prune_after_missing_scans = pos 5;
  partial = true;
  partial_scope = some (λ c. str_eq c.id (codes "c_a"));
}

abbrev before : Index
before = index_of_calls (codes "s_1") (
    sample_call (codes "c_a") (codes "http") 10 (codes "s_1")
    ∷ sample_call (codes "c_b") (codes "http") 20 (codes "s_1")
    ∷ [])

abbrev nothing_seen : Index
nothing_seen = index_of_calls (codes "s_2") []

abbrev seen_again : Index
seen_again = index_of_calls (codes "s_2") (
    sample_call (codes "c_a") (codes "http") 10 []
    ∷ sample_call (codes "c_b") (codes "http") 20 []
    ∷ [])

abbrev one_call : Index
one_call =
    index_of_calls (codes "s_1") (sample_call (codes "c_a") (codes "http") 10 (codes "s_1") ∷ [])

-- A call of another client to the same endpoint was added above the known one.
abbrev inserted_above : Index
inserted_above = index_of_calls (codes "s_2") (
    sample_call (codes "c_new") (codes "axios") 5 []
    ∷ sample_call (codes "c_a") (codes "http") 10 []
    ∷ [])

-- The new call takes the history of the known one, whose id is then reported as added.
steals_history : (merge (some one_call) inserted_above keep_five).1.added_ids ≡ codes "c_a" ∷ []
unfolding merge
steals_history = refl

first_seen_of_new :
    map
      (λ (c : Call). c.lifecycle.first_seen_scan)
      (merge (some one_call) inserted_above keep_five).0.calls
    ≡ codes "s_1" ∷ codes "s_2" ∷ []
unfolding merge
first_seen_of_new = refl
