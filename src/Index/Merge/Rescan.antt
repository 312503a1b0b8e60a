-- ===== src/Index/Merge/Rescan.antt =====
-- Scanning unchanged code again changes nothing.
use api_integrity_tool.Base.{◌+◌, Str, ◌≡◌, true, false, some, List, [], ◌∷◌, All}
use api_integrity_tool.Index.Calls.{Call, Index, is_removed}
use api_integrity_tool.Index.Merge.{MergeReport, by_id, is_matched}

abbrev pub id_of : Call → Str
id_of c = c.id

-- The calls are the same ones at the same places, and the old ones are not marked removed.
abbrev pub SameCalls : List Call → List Call → Type 0
SameCalls [] [] = Unit
SameCalls (o ∷ os) (c ∷ cs) =
    ((c.id ≡ o.id)
      × (o.location.file ≡ c.location.file)
      × (o.location.line ≡ c.location.line)
      × (is_removed o.lifecycle.status ≡ false))
    × SameCalls os cs
SameCalls _ _ = ⊥

abbrev KnownIn : List Call → List Call → Type 0
KnownIn prev = All (λ o. by_id prev o.id ≡ some o)

abbrev Unmatched : List Str → List Call → Type 0
Unmatched matched = All (λ o. is_matched matched o.id ≡ false)

abbrev AllMatched : List Str → List Call → Type 0
AllMatched matched = All (λ o. is_matched matched o.id ≡ true)

abbrev once_more : MergeReport → MergeReport
once_more r = record r { unchanged = r.unchanged + 1 }
