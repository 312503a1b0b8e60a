-- ===== src/OpenApi/Diff.antt =====
-- Diff of internal/monitor/analyze/openapi/diff.go: the changes of the whole document, of its paths
-- and of its operations.
pub mod Verdict
pub mod Same
use api_integrity_tool.Base.{
  ℕ, Bool, true, false, not, ◌&&◌, Option, none, some, List, [], ◌∷◌, ◌++◌, if◌then◌else◌, any,
  length, ltb, ◌==◌, map, Str, codes, is_empty, str_eq, str_lt, sort_by, trim_space, join,
  has_prefix,
}
use api_integrity_tool.OpenApi.Doc.{
  OpKey, Operation, Doc, Signal, Change, path_pointer, op_pointer, is_member, get, get_op,
  equal_strings, tightened, sorted_keys, change_less, op_less,
}
use api_integrity_tool.OpenApi.Template.{normalize_template}
use api_integrity_tool.OpenApi.Operation.{change, when, commas, atoi, diff_operation}

-- The text up to the first `.`, `-` or `+`.
major_part : Str → Str
major_part [] = []
major_part (c ∷ s) =
    let rest = c ∷ major_part s in
    if c == b'.' then [] else if c == b'-' then [] else if c == b'+' then [] else rest

trim_v : Str → Str
trim_v [] = []
trim_v (c ∷ s) = if c == b'v' then s else c ∷ s

-- majorOf
unfoldable pub major_of : Str → Option ℕ
unfolding major_part trim_v trim_space atoi
major_of v = atoi (major_part (trim_v (trim_space v)))

-- majorBump
unfoldable pub major_bump : Str → Str → Bool
unfolding major_of
major_bump before after = elim (major_of before) [
  | none ↦ false
  | some bm ↦ elim (major_of after) [ none ↦ false | some am ↦ ltb bm am ]
]

-- One round of the loop of templateIndex; `out` is the map so far.
unfoldable pub note_template : List (Str × Str) → Str → List (Str × Str)
unfolding get normalize_template str_eq
note_template out p =
    let t = normalize_template p in
    if str_eq t p then out else elim (get t out) [ none ↦ (t, p) ∷ out | some q ↦ out ]

-- The loop of templateIndex, over the sorted paths.
unfoldable pub template_index_loop : List (Str × Str) → List Str → List (Str × Str)
unfolding note_template
template_index_loop out [] = out
template_index_loop out (p ∷ ps) = template_index_loop (note_template out p) ps

-- templateIndex
unfoldable pub template_index : List Str → List (Str × Str)
unfolding template_index_loop sorted_keys
template_index paths = template_index_loop [] (sorted_keys paths)

abbrev pub op_key : Str → Str → OpKey
op_key method path = record { method = method; path = path }

-- The zero OpKey, for a change of the whole document.
abbrev pub no_op : OpKey
no_op = op_key [] []

-- OpKey.String
unfoldable pub op_text : OpKey → Str
op_text k = k.method ++ (codes " " ++ k.path)

unfoldable pub document_changes : Doc → Doc → List Change
unfolding equal_strings tightened commas major_bump
document_changes base head =
    when (not (equal_strings base.servers head.servers) && ltb 0 (length base.servers)) (
      change Signal.server_changed no_op (codes "#/servers") (commas base.servers)
        (commas head.servers) true)
    ++ (when (not (equal_strings base.security head.security)) (
          change Signal.auth_changed no_op (codes "#/security") (commas base.security)
            (commas head.security) (tightened base.security head.security))
        ++ when (major_bump base.info_version head.info_version) (
            change Signal.major_version_bump no_op (codes "#/info/version") base.info_version
              head.info_version false))

-- What one old path adds to the changes.
unfoldable pub path_change : List Str → Str → List Change
unfolding is_member get template_index normalize_template path_pointer
path_change head p =
    let op = op_key [] p in
    if is_member p head then [] else elim (get (normalize_template p) (template_index head)) [
      | some renamed ↦ change Signal.param_renamed op (path_pointer p) p renamed false ∷ []
      | none ↦ change Signal.path_removed op (path_pointer p) p [] true ∷ []
    ]

-- The loop over the old paths.
unfoldable pub path_changes : List Str → List Str → List Change
unfolding path_change
path_changes head [] = []
path_changes head (p ∷ ps) = path_change head p ++ path_changes head ps

-- The operation of the new document that an old path's rename leads to.
unfoldable pub renamed_operation : Doc → OpKey → Option Operation
unfolding get get_op template_index normalize_template is_member
renamed_operation head key =
    if is_member key.path head.paths
    then none
    else elim (get (normalize_template key.path) (template_index head.paths)) [
      | none ↦ none
      | some path ↦ get_op (op_key key.method path) head.operations
    ]

-- What one old operation adds to the changes.
unfoldable pub operation_change : Doc → OpKey → Operation → List Change
unfolding get_op renamed_operation is_member op_pointer op_text diff_operation
operation_change head key b = elim (get_op key head.operations) [
  | some h ↦ diff_operation b h false
  | none ↦ elim (renamed_operation head key) [
    | some h ↦ diff_operation b h true
    | none ↦
        when (is_member key.path head.paths)
          (change Signal.operation_removed key (op_pointer key) (op_text key) [] true)
  ]
]

-- The loop over the old operations.
unfoldable pub operation_changes : Doc → List (OpKey × Operation) → List Change
unfolding operation_change
operation_changes head [] = []
operation_changes head ((key, b) ∷ rest) =
    operation_change head key b ++ operation_changes head rest

-- The loop over the new operations.
unfoldable pub additions : List (OpKey × Operation) → List (OpKey × Operation) → List Change
unfolding get_op op_pointer op_text
additions base [] = []
additions base ((key, h) ∷ rest) =
    let onward = additions base rest in
    elim (get_op key base) [
      | some b ↦ onward
      | none ↦ change Signal.additive key (op_pointer key) [] (op_text key) false ∷ onward
    ]

-- All changes, in the order they are found.
unfoldable pub found_changes : Doc → Doc → List Change
unfolding document_changes path_changes operation_changes additions sorted_keys sort_by op_less
found_changes base head =
    document_changes base head
    ++ (path_changes head.paths (sorted_keys base.paths)
        ++ (operation_changes head (sort_by op_less base.operations)
            ++ additions base.operations (sort_by op_less head.operations)))

-- Diff
unfoldable pub diff : Doc → Doc → List Change
unfolding found_changes sort_by change_less
diff base head = sort_by change_less (found_changes base head)
