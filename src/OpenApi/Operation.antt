-- ===== src/OpenApi/Operation.antt =====
-- diffOperationOpts of internal/monitor/analyze/openapi/diff.go, one function for each of its parts.
use api_integrity_tool.Base.{
  read_int, pos, negsuc, ℕ, Bool, true, false, not, ◌&&◌, ◌||◌, Option, none, some, List, [], ◌∷◌,
  ◌++◌, if◌then◌else◌, keep, length, ltb, leb, ◌==◌, Str, codes, is_empty, str_eq, str_lt,
  has_prefix, sort_by, to_lower, trim_space, join,
}
use api_integrity_tool.OpenApi.Doc.{
  OpKey, Param, Operation, Signal, Change, op_pointer, is_member, get, equal_strings, missing,
  tightened,
}

abbrev pub change : Signal → OpKey → Str → Str → Str → Bool → Change
change kind op pointer before after breaking = record {
  kind = kind;
  op = op;
  pointer = pointer;
  before = before;
  after = after;
  breaking = breaking;
}

unfoldable pub when : Bool → Change → List Change
when true c = c ∷ []
when false c = []

unfoldable pub commas : List Str → Str
unfolding join
commas = join (codes ", ")

-- renamedPath && strings.EqualFold(p.In, "path")
unfoldable pub in_renamed_path : Bool → Param → Bool
unfolding str_eq to_lower
in_renamed_path renamed p = renamed && str_eq (to_lower p.position) (codes "path")

-- The changes of a parameter that both operations have.
unfoldable pub param_changes : OpKey → Str → Param → Param → List Change
unfolding str_eq missing commas op_pointer
param_changes key name bp hp =
    let at = op_pointer key ++ (codes "/parameters/" ++ name) in
    when (not bp.required && hp.required)
      (change Signal.param_now_required key at (codes "optional") (codes "required") true)
    ++ (when (not (is_empty bp.type) && not (is_empty hp.type) && not (str_eq bp.type hp.type))
          (change Signal.type_narrowed key at bp.type hp.type true)
        ++ when (ltb 0 (length (missing bp.enum hp.enum)))
            (change Signal.enum_value_removed key at (commas (missing bp.enum hp.enum)) [] true))

-- The loop over the old parameters.
unfoldable pub old_params : OpKey → Bool → List (Str × Param) → List (Str × Param) → List Change
unfolding in_renamed_path get param_changes op_pointer
old_params key renamed [] head = []
old_params key renamed ((name, bp) ∷ rest) head =
    let onward = old_params key renamed rest head in
    if in_renamed_path renamed bp then onward else elim (get name head) [
      | none ↦
          change Signal.param_removed key (op_pointer key ++ (codes "/parameters/" ++ name)) name []
            false
          ∷ onward
      | some hp ↦ param_changes key name bp hp ++ onward
    ]

-- The loop over the new parameters.
unfoldable pub new_params : OpKey → Bool → List (Str × Param) → List (Str × Param) → List Change
unfolding in_renamed_path get op_pointer
new_params key renamed base [] = []
new_params key renamed base ((name, hp) ∷ rest) =
    let onward = new_params key renamed base rest in
    let at = op_pointer key ++ (codes "/parameters/" ++ name) in
    elim (get name base) [
      | some bp ↦ onward
      | none ↦
          if in_renamed_path renamed hp
          then onward
          else if hp.required
          then change Signal.required_param_added key at [] name true ∷ onward
          else change Signal.additive key at [] name false ∷ onward
    ]

unfoldable pub body_changes : OpKey → Operation → Operation → List Change
unfolding op_pointer
body_changes key b h = when (not b.body_required && h.body_required) (
    change Signal.body_now_required key (op_pointer key ++ codes "/requestBody") (codes "optional")
      (codes "required") true)

-- The loop over the required properties of the new request body.
unfoldable pub body_props : OpKey → List Str → List Str → List Change
unfolding is_member op_pointer
body_props key base [] = []
body_props key base (name ∷ rest) =
    let onward = body_props key base rest in
    if is_member name base
    then onward
    else change Signal.body_prop_required key
        (op_pointer key ++ (codes "/requestBody/required/" ++ name)) [] name true
      ∷ onward

-- strconv.Atoi: `none` is the error, and a number below zero is given as 0, which is no success either.
unfoldable pub atoi : Str → Option ℕ
unfolding read_int
atoi s = if (read_int s).1 then some (elim (read_int s).0 [ pos n ↦ n | negsuc n ↦ 0 ]) else none

-- isSuccess
unfoldable pub is_success : Str → Bool
unfolding str_eq atoi trim_space has_prefix
is_success code = if str_eq code (codes "default") then false else elim (atoi (trim_space code)) [
  | none ↦ has_prefix code (codes "2")
  | some n ↦ leb 200 n && ltb n 300
]

-- missingSuccess
unfoldable pub missing_success : List Str → List Str → List Str
unfolding is_success missing
missing_success before after = elim (keep is_success after) [
  | [] ↦ []
  | s ∷ ss ↦ missing (keep is_success before) (s ∷ ss)
]

-- The fields of one response, in sorted order.
unfoldable pub field_changes : OpKey → Str → List (Str × Bool) → List (Str × Bool) → List Change
unfolding get op_pointer
field_changes key code [] head = []
field_changes key code ((name, promised) ∷ rest) head =
    let onward = field_changes key code rest head in
    elim (get name head) [
      | some f ↦ onward
      | none ↦
          change Signal.response_field_gone key
            (op_pointer key ++ (codes "/responses/" ++ (code ++ (codes "/" ++ name)))) name []
            promised
          ∷ onward
    ]

-- The loop over the old responses.
unfoldable pub responses :
    OpKey → List (Str × List (Str × Bool)) → List (Str × List (Str × Bool)) → List Change
unfolding is_success get field_changes sort_by str_lt
responses key [] head = []
responses key ((code, fields) ∷ rest) head =
    let onward = responses key rest head in
    if not (is_success code) then onward else elim (get code head) [
      | none ↦ onward
      | some hfields ↦
          field_changes key code (sort_by (λ (a b : Str × Bool). str_lt a.0 b.0) fields) hfields
          ++ onward
    ]

unfoldable pub status_changes : OpKey → Operation → Operation → List Change
unfolding missing_success commas op_pointer
status_changes key b h =
    let gone = missing_success b.statuses h.statuses in
    when (ltb 0 (length gone)) (
      change Signal.status_removed key (op_pointer key ++ codes "/responses") (commas gone) []
        false)

unfoldable pub security_changes : OpKey → Operation → Operation → List Change
unfolding equal_strings tightened commas op_pointer
security_changes key b h =
    let breaking = tightened b.security h.security in
    let kind =
      if not breaking && length h.security == length b.security
      then Signal.scope_added
      else Signal.auth_changed in
    when (not (equal_strings b.security h.security) && (b.has_security || h.has_security)) (
      change kind key (op_pointer key ++ codes "/security") (commas b.security) (commas h.security)
        breaking)

unfoldable pub warnings : OpKey → Operation → Operation → List Change
unfolding op_pointer
warnings key b h =
    when (not b.deprecated && h.deprecated)
      (change Signal.deprecated key (op_pointer key ++ codes "/deprecated") [] (codes "true") false)
    ++ when (is_empty b.sunset && not (is_empty h.sunset))
        (change Signal.sunset key (op_pointer key ++ codes "/x-sunset") [] h.sunset false)

-- diffOperationOpts
unfoldable pub diff_operation : Operation → Operation → Bool → List Change
unfolding old_params new_params body_changes body_props responses status_changes security_changes
    warnings
diff_operation b h renamed =
    let key = b.key in
    old_params key renamed b.params h.params
    ++ (new_params key renamed b.params h.params
        ++ (body_changes key b h
            ++ (body_props key b.body_required_props h.body_required_props
                ++ (responses key b.response_fields h.response_fields
                    ++ (status_changes key b h
                        ++ (security_changes key b h ++ warnings key b h))))))
