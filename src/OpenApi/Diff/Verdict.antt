-- ===== src/OpenApi/Diff/Verdict.antt =====
-- Which kinds of change diff.go calls breaking, whatever the two documents are.
use api_integrity_tool.Base.{
  ◌≡◌, refl, Bool, true, false, not, ◌&&◌, Option, none, some, List, [], ◌∷◌, ◌++◌, length, arith,
  Bool-cases, Option-cases, inl, inr, ◌==◌, All, All-append, All-sort_by, Str,
}
use api_integrity_tool.OpenApi.Doc.{
  OpKey, Param, Operation, Doc, Signal, Change, get, get_op, is_member, tightened, change_less,
}
use api_integrity_tool.OpenApi.Template.{normalize_template}
use api_integrity_tool.OpenApi.Operation.{
  when, in_renamed_path, param_changes, old_params, new_params, body_changes, body_props,
  is_success, field_changes, responses, status_changes, security_changes, warnings, diff_operation,
}
use api_integrity_tool.OpenApi.Diff.{
  document_changes, path_change, path_changes, operation_change, operation_changes, additions,
  found_changes, diff, renamed_operation, template_index,
}

-- The kinds that are always a break (`some true`), the ones that never are (`some false`) and the
-- ones that depend on the change.
abbrev pub verdict : Signal → Option Bool
verdict Signal.path_removed = some true
verdict Signal.operation_removed = some true
verdict Signal.required_param_added = some true
verdict Signal.param_now_required = some true
verdict Signal.body_now_required = some true
verdict Signal.body_prop_required = some true
verdict Signal.type_narrowed = some true
verdict Signal.enum_value_removed = some true
verdict Signal.server_changed = some true
verdict Signal.param_removed = some false
verdict Signal.status_removed = some false
verdict Signal.scope_added = some false
verdict Signal.deprecated = some false
verdict Signal.sunset = some false
verdict Signal.additive = some false
verdict Signal.major_version_bump = some false
verdict Signal.param_renamed = some false
verdict Signal.response_field_gone = none
verdict Signal.auth_changed = none

abbrev pub AgreesWith : Option Bool → Bool → Type 0
AgreesWith none b = Unit
AgreesWith (some v) b = b ≡ v

abbrev pub IsJudged : Change → Type 0
IsJudged c = AgreesWith (verdict c.kind) c.breaking

unfoldable AreJudged : List Change → Type 0
AreJudged cs = All IsJudged cs

none-AreJudged : AreJudged []
unfolding AreJudged
none-AreJudged = tt

cons-AreJudged : (c : Change) (cs : List Change) → IsJudged c → AreJudged cs → AreJudged (c ∷ cs)
unfolding AreJudged
cons-AreJudged c cs h hs = (h, hs)

append-AreJudged : (cs ds : List Change) → AreJudged cs → AreJudged ds → AreJudged (cs ++ ds)
unfolding AreJudged
append-AreJudged = All-append IsJudged

when-AreJudged : (b : Bool) (c : Change) → IsJudged c → AreJudged (when b c)
unfolding AreJudged when
when-AreJudged true c h = (h, tt)
when-AreJudged false c h = tt

param_changes-AreJudged :
    (key : OpKey) (name : Str) (b h : Param) → AreJudged (param_changes key name b h)
unfolding param_changes
param_changes-AreJudged key name b h =
    append-AreJudged _ _ (when-AreJudged _ _ refl)
      (append-AreJudged _ _ (when-AreJudged _ _ refl) (when-AreJudged _ _ refl))

old_params-AreJudged :
    (key : OpKey) (renamed : Bool) (base head : List (Str × Param))
    → AreJudged (old_params key renamed base head)
unfolding old_params
old_params-AreJudged key renamed [] head = none-AreJudged
old_params-AreJudged key renamed ((name, b) ∷ rest) head =
    elim (Bool-cases (in_renamed_path renamed b)) [
      | inl e ↦ rw e (old_params-AreJudged key renamed rest head)
      | inr e ↦ elim (Option-cases (get name head)) [
        | inl g ↦ rw (e, g) (cons-AreJudged _ _ refl (old_params-AreJudged key renamed rest head))
        | inr (h, g) ↦
            rw (e, g)
              (append-AreJudged _ _ (param_changes-AreJudged key name b h)
                (old_params-AreJudged key renamed rest head))
      ]
    ]

new_params-AreJudged :
    (key : OpKey) (renamed : Bool) (base head : List (Str × Param))
    → AreJudged (new_params key renamed base head)
unfolding new_params
new_params-AreJudged key renamed base [] = none-AreJudged
new_params-AreJudged key renamed base ((name, h) ∷ rest) = elim (Option-cases (get name base)) [
  | inr (bp, g) ↦ rw (g, new_params) (new_params-AreJudged key renamed base rest)
  | inl g ↦ elim (Bool-cases (in_renamed_path renamed h)) [
    | inl e ↦ rw (g, e, new_params) (new_params-AreJudged key renamed base rest)
    | inr e ↦ elim (Bool-cases h.required) [
      | inl r ↦
          rw (g, e, r, new_params)
            (cons-AreJudged _ _ refl (new_params-AreJudged key renamed base rest))
      | inr r ↦
          rw (g, e, r, new_params)
            (cons-AreJudged _ _ refl (new_params-AreJudged key renamed base rest))
    ]
  ]
]

body_props-AreJudged : (key : OpKey) (base head : List Str) → AreJudged (body_props key base head)
unfolding body_props
body_props-AreJudged key base [] = none-AreJudged
body_props-AreJudged key base (name ∷ rest) = elim (Bool-cases (is_member name base)) [
  | inl e ↦ rw e (body_props-AreJudged key base rest)
  | inr e ↦ rw e (cons-AreJudged _ _ refl (body_props-AreJudged key base rest))
]

field_changes-AreJudged :
    (key : OpKey) (code : Str) (base head : List (Str × Bool))
    → AreJudged (field_changes key code base head)
unfolding field_changes
field_changes-AreJudged key code [] head = none-AreJudged
field_changes-AreJudged key code ((name, promised) ∷ rest) head =
    elim (Option-cases (get name head)) [
      | inl g ↦
          rw (g, field_changes) (cons-AreJudged _ _ tt (field_changes-AreJudged key code rest head))
      | inr (f, g) ↦ rw (g, field_changes) (field_changes-AreJudged key code rest head)
    ]

responses-AreJudged :
    (key : OpKey) (base head : List (Str × List (Str × Bool))) → AreJudged (responses key base head)
unfolding responses
responses-AreJudged key [] head = none-AreJudged
responses-AreJudged key ((code, fields) ∷ rest) head = elim (Bool-cases (is_success code)) [
  | inr e ↦ rw e (responses-AreJudged key rest head)
  | inl e ↦ elim (Option-cases (get code head)) [
    | inl g ↦ rw (e, g) (responses-AreJudged key rest head)
    | inr (f, g) ↦
        rw (e, g)
          (append-AreJudged _ _ (field_changes-AreJudged key code _ f)
            (responses-AreJudged key rest head))
  ]
]

-- The kind of a security change follows its verdict.
security_changes-AreJudged : (key : OpKey) (b h : Operation) → AreJudged (security_changes key b h)
unfolding security_changes
security_changes-AreJudged key b h =
    elim (Bool-cases
      (not (tightened b.security h.security) && length h.security == length b.security)) [
        | inl e ↦ rw e (when-AreJudged _ _ (ground (arith, e)))
        | inr e ↦ rw e (when-AreJudged _ _ tt)
      ]

diff_operation-AreJudged :
    (b h : Operation) (renamed : Bool) → AreJudged (diff_operation b h renamed)
unfolding diff_operation body_changes status_changes warnings
diff_operation-AreJudged b h renamed =
    append-AreJudged _ _ (old_params-AreJudged b.key renamed b.params h.params) (
      append-AreJudged _ _ (new_params-AreJudged b.key renamed b.params h.params) (
        append-AreJudged _ _ (when-AreJudged _ _ refl) (
          append-AreJudged _ _
            (body_props-AreJudged b.key b.body_required_props h.body_required_props)
            (append-AreJudged _ _ (responses-AreJudged b.key b.response_fields h.response_fields) (
              append-AreJudged _ _ (when-AreJudged _ _ refl) (
                append-AreJudged _ _ (security_changes-AreJudged b.key b h)
                  (append-AreJudged _ _ (when-AreJudged _ _ refl) (when-AreJudged _ _ refl))))))))

path_change-AreJudged : (head : List Str) (p : Str) → AreJudged (path_change head p)
unfolding path_change
path_change-AreJudged head p = elim (Bool-cases (is_member p head)) [
  | inl e ↦ rw e none-AreJudged
  | inr e ↦ elim (Option-cases (get (normalize_template p) (template_index head))) [
    | inl g ↦ rw (e, g) (cons-AreJudged _ _ refl none-AreJudged)
    | inr (q, g) ↦ rw (e, g) (cons-AreJudged _ _ refl none-AreJudged)
  ]
]

path_changes-AreJudged : (head ps : List Str) → AreJudged (path_changes head ps)
unfolding path_changes
path_changes-AreJudged head [] = none-AreJudged
path_changes-AreJudged head (p ∷ ps) =
    append-AreJudged _ _ (path_change-AreJudged head p) (path_changes-AreJudged head ps)

operation_change-AreJudged :
    (head : Doc) (key : OpKey) (b : Operation) → AreJudged (operation_change head key b)
unfolding operation_change
operation_change-AreJudged head key b = elim (Option-cases (get_op key head.operations)) [
  | inr (h, g) ↦ rw (operation_change, g) (diff_operation-AreJudged b h false)
  | inl g ↦ elim (Option-cases (renamed_operation head key)) [
    | inl r ↦ rw (operation_change, g, r) (when-AreJudged _ _ refl)
    | inr (h, r) ↦ rw (operation_change, g, r) (diff_operation-AreJudged b h true)
  ]
]

operation_changes-AreJudged :
    (head : Doc) (ops : List (OpKey × Operation)) → AreJudged (operation_changes head ops)
unfolding operation_changes
operation_changes-AreJudged head [] = none-AreJudged
operation_changes-AreJudged head ((key, b) ∷ rest) =
    append-AreJudged _ _ (operation_change-AreJudged head key b)
      (operation_changes-AreJudged head rest)

additions-AreJudged : (base head : List (OpKey × Operation)) → AreJudged (additions base head)
unfolding additions
additions-AreJudged base [] = none-AreJudged
additions-AreJudged base ((key, h) ∷ rest) = elim (Option-cases (get_op key base)) [
  | inl g ↦ rw (g, additions) (cons-AreJudged _ _ refl (additions-AreJudged base rest))
  | inr (b, g) ↦ rw (g, additions) (additions-AreJudged base rest)
]

document_changes-AreJudged : (base head : Doc) → AreJudged (document_changes base head)
unfolding document_changes
document_changes-AreJudged base head =
    append-AreJudged _ _ (when-AreJudged _ _ refl)
      (append-AreJudged _ _ (when-AreJudged _ _ tt) (when-AreJudged _ _ refl))

found_changes-AreJudged : (base head : Doc) → AreJudged (found_changes base head)
unfolding found_changes
found_changes-AreJudged base head = append-AreJudged _ _ (document_changes-AreJudged base head) (
    append-AreJudged _ _ (path_changes-AreJudged head.paths _) (
      append-AreJudged _ _ (operation_changes-AreJudged head _)
        (additions-AreJudged base.operations _)))

-- Each change that Diff reports is breaking when its kind is one that always breaks a caller, and
-- not breaking when its kind is a warning, a risk or an addition, for all two documents.
pub diff-IsJudged : (base head : Doc) → All IsJudged (diff base head)
unfolding diff AreJudged
diff-IsJudged base head =
    All-sort_by change_less IsJudged (found_changes base head) (found_changes-AreJudged base head)
