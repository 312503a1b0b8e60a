-- ===== src/Linker/Prompt/Bounds.antt =====
-- How much Prompt of internal/linker/linker.go asks and keeps.
use api_integrity_tool.Base.{ℕ, zero, suc, ◌≡◌, none, List, [], ◌∷◌, ◌++◌}
use api_integrity_tool.Linker.Requests.{NeedsLink}
use api_integrity_tool.Linker.Prompt.{Prompted}

abbrev pub drop : ℕ → List NeedsLink → List NeedsLink
drop zero ns = ns
drop (suc k) [] = []
drop (suc k) (n ∷ ns) = drop k ns

-- Some hosts of the list, in its order.
pub data Some : List NeedsLink → List NeedsLink → Type 0 where
  none_left : Some [] []
  kept : (n : NeedsLink) {ks ns : List NeedsLink} → Some ks ns → Some (n ∷ ks) (n ∷ ns)
  answered : (n : NeedsLink) {ks ns : List NeedsLink} → Some ks ns → Some ks (n ∷ ns)

-- What is left are some of the hosts, in order.
abbrev pub Leaves : List NeedsLink → Prompted → Type 0
Leaves ns p = Some p.remaining ns

-- At most `asks` hosts are answered: without an error the hosts behind them are all left.
abbrev pub Ends : ℕ → List NeedsLink → Prompted → Type 0
Ends asks ns p = p.error ≡ none → (ks : List NeedsLink) × (p.remaining ≡ ks ++ drop asks ns)
