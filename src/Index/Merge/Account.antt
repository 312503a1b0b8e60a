-- ===== src/Index/Merge/Account.antt =====
-- Every call of the scan and of the previous index is accounted for.
use api_integrity_tool.Base.{
  Bool, ◌&&◌, ◌||◌, ℕ, Str, ◌+◌, ◌≡◌, not, List, [], ◌∷◌, arith, keep, length, length-append,
}
use api_integrity_tool.Index.Calls.{Call, Index}
use api_integrity_tool.Index.Merge.{
  MergeOptions, MergeReport, empty_report, Progress, is_matched, merge_loop, out_of_scope,
  is_pruned, gone, leave_call,
}

-- The calls of the scan that the report counts.
abbrev pub seen_total : MergeReport → ℕ
seen_total r = r.added + r.updated + r.unchanged + r.restored

-- The calls of the previous index that the report counts as not seen.
abbrev unseen_total : MergeReport → ℕ
unseen_total r = r.removed + r.pruned + r.carried_fwd

-- The calls of the previous index that nothing matched.
abbrev unseen : List Str → List Call → List Call
unseen matched = keep (λ o. not (is_matched matched o.id))

pub leave_call-totals :
    (opts : MergeOptions) (scan : Str) (old : Call) (p : Progress)
    → (seen_total (leave_call opts scan old p).report ≡ seen_total p.report)
      × (unseen_total (leave_call opts scan old p).report
          ≡ unseen_total p.report + length (unseen p.matched (old ∷ [])))
      × (length (leave_call opts scan old p).calls + (leave_call opts scan old p).report.pruned
          ≡ length p.calls + p.report.pruned + length (unseen p.matched (old ∷ [])))
      × ((leave_call opts scan old p).matched ≡ p.matched)
unfolding leave_call
leave_call-totals opts scan old p =
    ground (arith, length-append p.calls (old ∷ []), length-append p.calls (gone scan old ∷ []))

-- The ids of the previous calls that the calls of the scan were matched with.
abbrev pub matched_ids : Index → Index → List Str
matched_ids prev next =
    (merge_loop prev.calls next.scan.id next.scan.commit next.calls
      (record { calls = []; matched = []; report = empty_report })).matched

-- What becomes of a call of the previous index, by the ids that were matched.
abbrev pub is_carried : MergeOptions → List Str → Call → Bool
is_carried opts matched o = not (is_matched matched o.id) && out_of_scope opts o

abbrev pub is_aged : MergeOptions → List Str → Call → Bool
is_aged opts matched o =
    not (is_matched matched o.id) && (not (out_of_scope opts o) && not (is_pruned opts o))

abbrev pub is_dropped : MergeOptions → List Str → Call → Bool
is_dropped opts matched o =
    not (is_matched matched o.id) && (not (out_of_scope opts o) && is_pruned opts o)

abbrev pub stays : MergeOptions → List Str → Call → Bool
stays opts matched o = is_carried opts matched o || is_aged opts matched o

-- The counts of a report for the calls of the previous index.
abbrev Counts : MergeOptions → List Str → List Call → MergeReport → MergeReport → Type 0
Counts opts matched olds r s =
    (s.carried_fwd ≡ r.carried_fwd + length (keep (is_carried opts matched) olds))
    × (s.removed ≡ r.removed + length (keep (is_aged opts matched) olds))
    × (s.pruned ≡ r.pruned + length (keep (is_dropped opts matched) olds))
    × (seen_total s ≡ seen_total r)
