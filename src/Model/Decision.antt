-- ===== src/Model/Decision.antt =====
-- `Decision` of internal/model/model.go: a host that is deliberately not linked.
use api_integrity_tool.Base.{ℕ, Bool, true, false, Option, none, some, ltb, Str}

pub data DecisionKind : Type 0 where
  unmonitored later : DecisionKind
  other_kind : Str → DecisionKind

pub data Reason : Type 0 where
  closed_source internal third_party_no_repo noise other : Reason
  free_text : Str → Reason

pub record Decision : Type 0 where
  pub host : Str
  pub kind : DecisionKind
  pub reason : Reason
  pub decided_by : Str
  pub decided_at : ℕ
  pub expires_at : Option ℕ

-- Decision.Active
unfoldable pub active : Decision → ℕ → Bool
active d now = elim d.expires_at [ none ↦ true | some t ↦ ltb now t ]

-- Decision.Sticky
unfoldable pub sticky : Reason → Bool
sticky closed_source = true
sticky internal = true
sticky _ = false
