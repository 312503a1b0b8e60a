-- ===== src/Index/Merge/Scope.antt =====
-- What becomes of the calls that a scan did not see.
use api_integrity_tool.Base.{
  ℕ, suc, ◌+◌, ◌≤◌, ℤ, pos, negsuc, Bool, if◌then◌else◌, is_empty, Option, ◌⊎◌, Str, ◌≡◌, true,
  false, some, List, Any,
}
use api_integrity_tool.Index.Calls.{Call, removed, Index}
use api_integrity_tool.Index.Merge.{MergeOptions, out_of_scope, gone, is_pruned}

-- The call is in the list.
abbrev Has : Call → List Call → Type 0
Has c = Any (λ x. x ≡ c)

-- The two cases of a call that the code tells apart, by the code's own tests.
abbrev Fate : MergeOptions → Str → Call → List Call → Type 0
Fate opts scan old calls =
    (out_of_scope opts old ≡ true → Has old calls)
    × (out_of_scope opts old ≡ false → is_pruned opts old ≡ false → Has (gone scan old) calls)

-- A partial scan has a scope, and the call is not in it.
abbrev IsLeftOut : Bool → Option (Call → Bool) → Call → Type 0
IsLeftOut true (some scope) old = scope old ≡ false
IsLeftOut _ _ old = ⊥

-- The scan is a whole one, has no scope, or has the call in it.
abbrev IsInScope : Bool → Option (Call → Bool) → Call → Type 0
IsInScope true (some scope) old = scope old ≡ true
IsInScope _ _ old = Unit

-- With one more missing scan a call is within the retention, which 0 and less leave unlimited.
abbrev IsRetained : ℤ → ℕ → Type 0
IsRetained (pos n) missing = (n ≡ 0) ⊎ (missing + 1 ≤ n)
IsRetained (negsuc n) missing = Unit

-- A call out of the scan's scope is in the merged calls as it was; one in scope and within the
-- retention is there with the status removed and one more missing scan, last seen in the scan it
-- was last seen in, or in this one if it had none, and is the same call in all else.
abbrev pub IsLeft : MergeOptions → Str → Call → List Call → Type 0
IsLeft opts scan old calls =
    (IsLeftOut opts.partial opts.partial_scope old → Has old calls)
    × (IsInScope opts.partial opts.partial_scope old
        → IsRetained opts.prune_after_missing_scans old.lifecycle.missing_scans
        → Has
            (record old {
              lifecycle = record old.lifecycle {
                missing_scans = suc old.lifecycle.missing_scans;
                status = removed;
                last_seen_scan =
                    if is_empty old.lifecycle.last_seen_scan
                    then scan
                    else old.lifecycle.last_seen_scan;
              };
            })
            calls)
