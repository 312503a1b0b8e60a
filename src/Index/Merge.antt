-- ===== src/Index/Merge.antt =====
-- internal/index/merge.go: a fresh scan is folded into the previous index.
pub mod Bare
pub mod Account
pub mod Scope
pub mod Rescan
use api_integrity_tool.Base.{
  ℕ, suc, ◌+◌, Bool, true, false, not, ◌&&◌, ◌||◌, Option, none, some, List, [], ◌∷◌, ◌++◌,
  if◌then◌else◌, ◌==◌, ltb, any, keep, map, length, Str, codes, is_empty, str_eq, str_lt, sort_by,
  ℤ, pos, int_lt,
}
use api_integrity_tool.Index.Calls.{
  Call, CallStatus, active, removed, is_removed, Lifecycle, Index, sort_calls,
}
use api_integrity_tool.Index.Hosts.{build_hosts}

pub record MergeOptions : Type 0 where
  pub prune_after_missing_scans : ℤ
  pub partial : Bool
  pub partial_scope : Option (Call → Bool)

pub record Relocation : Type 0 where
  pub id : Str
  pub old_file : Str
  pub new_file : Str
  pub old_line : ℕ
  pub new_line : ℕ

pub record MergeReport : Type 0 where
  pub added : ℕ
  pub updated : ℕ
  pub unchanged : ℕ
  pub removed : ℕ
  pub restored : ℕ
  pub pruned : ℕ
  pub carried_fwd : ℕ
  pub added_ids : List Str
  pub removed_ids : List Str
  pub relocated : List Relocation

abbrev pub empty_report : MergeReport
empty_report = record {
  added = 0;
  updated = 0;
  unchanged = 0;
  removed = 0;
  restored = 0;
  pruned = 0;
  carried_fwd = 0;
  added_ids = [];
  removed_ids = [];
  relocated = [];
}

-- MergeReport.Changed
unfoldable pub changed : MergeReport → Bool
changed r =
    ltb 0 r.added
    || ltb 0 r.removed
    || ltb 0 r.restored
    || ltb 0 r.pruned
    || ltb 0 (length r.relocated)

-- firstNonEmpty
unfoldable pub first_non_empty : Str → Str → Str
first_non_empty a b = if is_empty a then b else a

pub data MatchKind : Type 0 where
  match_exact match_same_file match_renamed_file : MatchKind

unfoldable pub is_matched : List Str → Str → Bool
unfolding str_eq
is_matched matched id = any (λ k. str_eq k id) matched

-- byID: the last call of the id
unfoldable pub by_id : List Call → Str → Option Call
unfolding str_eq
by_id [] id = none
by_id (c ∷ cs) id = elim (by_id cs id) [
  | some d ↦ some d
  | none ↦ if str_eq c.id id then some c else none
]

unfoldable pub file_key : Call → Str
file_key c = c.location.file ++ 0 ∷ c.fingerprint

-- byFileFP and byFP, each followed by unmatched
unfoldable pub unmatched_in_file : List Call → List Str → Call → List Call
unfolding str_eq is_matched file_key
unmatched_in_file prev matched c =
    keep (λ o. not (is_matched matched o.id)) (keep (λ o. str_eq (file_key o) (file_key c)) prev)

unfoldable pub unmatched_anywhere : List Call → List Str → Call → List Call
unfolding str_eq is_matched
unmatched_anywhere prev matched c =
    keep (λ o. not (is_matched matched o.id)) (keep (λ o. str_eq o.fingerprint c.fingerprint) prev)

-- A tier that takes its only candidate.
unfoldable pub the_only :
    MatchKind → List Call → Option (Call × MatchKind) → Option (Call × MatchKind)
the_only how (o ∷ []) otherwise = some (o, how)
the_only how _ otherwise = otherwise

-- findPrev
unfoldable pub find_prev : List Call → List Str → Call → Option (Call × MatchKind)
unfolding by_id is_matched unmatched_in_file unmatched_anywhere the_only
find_prev prev matched c =
    let by_name =
      the_only match_same_file (unmatched_in_file prev matched c)
        (the_only match_renamed_file (unmatched_anywhere prev matched c) none) in
    elim (by_id prev c.id) [
      | none ↦ by_name
      | some old ↦ if is_matched matched old.id then by_name else some (old, match_exact)
    ]

-- The state of Merge's loops: the calls so far, the ids in `matched`, and the report.
pub record Progress : Type 0 where
  pub calls : List Call
  pub matched : List Str
  pub report : MergeReport

fresh_lifecycle : Str → Str → Lifecycle
fresh_lifecycle scan commit = record {
  first_seen_scan = scan;
  first_seen_commit = commit;
  last_seen_scan = scan;
  last_seen_commit = commit;
  status = active;
  missing_scans = 0;
}

unfoldable pub continued_lifecycle : Str → Str → Call → Lifecycle
unfolding first_non_empty
continued_lifecycle scan commit old = record {
  first_seen_scan = first_non_empty old.lifecycle.first_seen_scan scan;
  first_seen_commit = first_non_empty old.lifecycle.first_seen_commit commit;
  last_seen_scan = scan;
  last_seen_commit = commit;
  status = active;
  missing_scans = 0;
}

-- old.Location.File != cur.Location.File || old.Location.Line != cur.Location.Line
unfoldable pub moved : Call → Call → Bool
unfolding str_eq
moved old c =
    not (str_eq old.location.file c.location.file) || not (old.location.line == c.location.line)

is_exact : MatchKind → Bool
is_exact match_exact = true
is_exact _ = false

unfoldable pub count_match : Call → MatchKind → Call → MergeReport → MergeReport
unfolding is_exact is_removed
count_match old how c r =
    if is_removed old.lifecycle.status
    then record r { restored = r.restored + 1 }
    else if not (is_exact how) || not (old.location.line == c.location.line)
    then record r { updated = r.updated + 1 }
    else record r { unchanged = r.unchanged + 1 }

unfoldable pub note_move : Call → Call → MergeReport → MergeReport
unfolding moved
note_move old c r =
    if moved old c
    then record r {
      relocated =
          r.relocated
          ++ record {
            id = c.id;
            old_file = old.location.file;
            new_file = c.location.file;
            old_line = old.location.line;
            new_line = c.location.line;
          }
            ∷ [];
    }
    else r

-- One round of the loop over the calls of the fresh scan.
unfoldable pub merge_call : List Call → Str → Str → Call → Progress → Progress
unfolding find_prev fresh_lifecycle continued_lifecycle count_match note_move
merge_call prev scan commit c p = elim (find_prev prev p.matched c) [
  | none ↦ record p {
    calls = p.calls ++ record c { lifecycle = fresh_lifecycle scan commit } ∷ [];
    report = record p.report {
      added = p.report.added + 1;
      added_ids = p.report.added_ids ++ c.id ∷ [];
    };
  }
  | some (old, how) ↦ record {
    calls = p.calls ++ record c { lifecycle = continued_lifecycle scan commit old } ∷ [];
    matched = old.id ∷ p.matched;
    report = note_move old c (count_match old how c p.report);
  }
]

unfoldable pub merge_loop : List Call → Str → Str → List Call → Progress → Progress
unfolding merge_call
merge_loop prev scan commit [] p = p
merge_loop prev scan commit (c ∷ cs) p =
    merge_loop prev scan commit cs (merge_call prev scan commit c p)

-- opts.Partial && opts.PartialScope != nil && !opts.PartialScope(old)
unfoldable pub out_of_scope : MergeOptions → Call → Bool
out_of_scope opts old =
    opts.partial && elim opts.partial_scope [ none ↦ false | some scope ↦ not (scope old) ]

-- A call that the scan should have seen and did not.
unfoldable pub gone : Str → Call → Call
unfolding first_non_empty
gone scan old = record old {
  lifecycle = record old.lifecycle {
    missing_scans = suc old.lifecycle.missing_scans;
    status = removed;
    last_seen_scan = first_non_empty old.lifecycle.last_seen_scan scan;
  };
}

unfoldable pub is_pruned : MergeOptions → Call → Bool
unfolding int_lt
is_pruned opts old =
    int_lt (pos 0) opts.prune_after_missing_scans
    && int_lt opts.prune_after_missing_scans (pos (suc old.lifecycle.missing_scans))

-- One round of the loop over the calls of the previous index.
unfoldable pub leave_call : MergeOptions → Str → Call → Progress → Progress
unfolding is_matched out_of_scope gone is_pruned
leave_call opts scan old p =
    if is_matched p.matched old.id
    then p
    else if out_of_scope opts old
    then record p {
      calls = p.calls ++ old ∷ [];
      report = record p.report { carried_fwd = p.report.carried_fwd + 1 };
    }
    else if is_pruned opts old
    then record p { report = record p.report { pruned = p.report.pruned + 1 } }
    else record p {
      calls = p.calls ++ gone scan old ∷ [];
      report = record p.report {
        removed = p.report.removed + 1;
        removed_ids = p.report.removed_ids ++ old.id ∷ [];
      };
    }

unfoldable pub leave_loop : MergeOptions → Str → List Call → Progress → Progress
unfolding leave_call
leave_loop opts scan [] p = p
leave_loop opts scan (old ∷ olds) p = leave_loop opts scan olds (leave_call opts scan old p)

-- The map of vendors that finish fills: a later call of a host takes the place of an earlier one.
vendors_loop : List Call → List (Str × Str) → List (Str × Str)
vendors_loop [] m = m
vendors_loop (c ∷ cs) m = vendors_loop cs (if is_empty c.vendor then m else (c.host, c.vendor) ∷ m)

-- finish
unfoldable pub finish : Index → List Call → Index
unfolding sort_calls vendors_loop build_hosts
finish next calls =
    let sorted = sort_calls calls in
    record next {
      schema_version = 1;
      calls = sorted;
      hosts = build_hosts sorted (vendors_loop sorted []);
    }

-- The first scan: every call is new.
unfoldable pub first_scan : Index → Index × MergeReport
unfolding finish fresh_lifecycle sort_by str_lt
first_scan next =
    let fresh = fresh_lifecycle next.scan.id next.scan.commit in
    (
      finish next (map (λ (c : Call). record c { lifecycle = fresh }) next.calls),
      record empty_report {
        added = length next.calls;
        added_ids = sort_by str_lt (map (λ (c : Call). c.id) next.calls);
      },
    )

unfoldable pub sort_report : MergeReport → MergeReport
unfolding sort_by str_lt
sort_report r = record r {
  added_ids = sort_by str_lt r.added_ids;
  removed_ids = sort_by str_lt r.removed_ids;
  relocated = sort_by (λ (a b : Relocation). str_lt a.id b.id) r.relocated;
}

-- Both loops, from the empty report.
unfoldable pub merge_calls : List Call → Index → MergeOptions → Progress
unfolding merge_loop leave_loop
merge_calls prev next opts = leave_loop opts next.scan.id prev (
    merge_loop prev next.scan.id next.scan.commit next.calls
      (record { calls = []; matched = []; report = empty_report }))

-- Merge
unfoldable pub merge : Option Index → Index → MergeOptions → Index × MergeReport
unfolding first_scan merge_calls finish sort_report
merge none next opts = first_scan next
merge (some prev) next opts =
    let p = merge_calls prev.calls next opts in (finish next p.calls, sort_report p.report)
