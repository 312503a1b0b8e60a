-- ===== src/OpenApi/Doc.antt =====
-- The parsed specification of internal/monitor/analyze/openapi/openapi.go, and the `Change` and the
-- list helpers of diff.go. A Go map is a list of pairs, and a set a list; the loops that range over
-- a map go through the list in its order, which the theorems leave open.
use api_integrity_tool.Base.{
  Bool, true, false, not, ◌&&◌, ◌||◌, Option, none, some, List, [], ◌∷◌, ◌++◌, if◌then◌else◌, any,
  keep, length, ltb, ◌==◌, Str, codes, str_eq, str_lt, sort_by, to_lower, by_key,
}

pub record OpKey : Type 0 where
  pub method : Str
  pub path : Str

pub record Param : Type 0 where
  pub name : Str
  pub position : Str
  pub required : Bool
  pub type : Str
  pub enum : List Str

pub record Operation : Type 0 where
  pub key : OpKey
  pub deprecated : Bool
  pub sunset : Str
  pub params : List (Str × Param)
  pub body_required : Bool
  pub body_required_props : List Str
  pub response_fields : List (Str × List (Str × Bool))
  pub statuses : List Str
  pub security : List Str
  pub has_security : Bool

pub record Doc : Type 0 where
  pub spec_version : Str
  pub info_version : Str
  pub servers : List Str
  pub operations : List (OpKey × Operation)
  pub security : List Str
  pub paths : List Str

pub data Signal : Type 0 where
  path_removed operation_removed required_param_added param_now_required : Signal
  param_removed body_now_required body_prop_required type_narrowed : Signal
  enum_value_removed response_field_gone status_removed auth_changed : Signal
  scope_added deprecated sunset server_changed additive : Signal
  major_version_bump param_renamed : Signal

-- The signal names, which also decide the order of two changes of one operation.
unfoldable pub signal_name : Signal → Str
signal_name path_removed = codes "openapi.path_removed"
signal_name operation_removed = codes "openapi.operation_removed"
signal_name required_param_added = codes "openapi.required_param_added"
signal_name param_now_required = codes "openapi.param_now_required"
signal_name param_removed = codes "openapi.param_removed"
signal_name body_now_required = codes "openapi.request_body_required"
signal_name body_prop_required = codes "openapi.request_body_prop_required"
signal_name type_narrowed = codes "openapi.type_narrowed"
signal_name enum_value_removed = codes "openapi.enum_value_removed"
signal_name response_field_gone = codes "openapi.response_field_removed"
signal_name status_removed = codes "openapi.success_status_removed"
signal_name auth_changed = codes "openapi.auth_changed"
signal_name scope_added = codes "openapi.scope_added"
signal_name deprecated = codes "openapi.deprecated"
signal_name sunset = codes "openapi.sunset_announced"
signal_name server_changed = codes "openapi.server_changed"
signal_name additive = codes "openapi.additive"
signal_name major_version_bump = codes "openapi.version_major_bump"
signal_name param_renamed = codes "openapi.path_param_renamed"

-- The sentence `Detail` is left out: it only explains the kind to a reader.
pub record Change : Type 0 where
  pub kind : Signal
  pub op : OpKey
  pub pointer : Str
  pub before : Str
  pub after : Str
  pub breaking : Bool

-- escapePointer: neither replacement makes a text that the other one replaces
unfoldable pub escape_pointer : Str → Str
escape_pointer [] = []
escape_pointer (c ∷ s) =
    let rest = escape_pointer s in
    if c == b'~' then codes "~0" ++ rest else if c == b'/' then codes "~1" ++ rest else c ∷ rest

-- pathPointer
unfoldable pub path_pointer : Str → Str
unfolding escape_pointer
path_pointer p = codes "#/paths/" ++ escape_pointer p

-- opPointer
unfoldable pub op_pointer : OpKey → Str
unfolding path_pointer to_lower
op_pointer k = path_pointer k.path ++ (codes "/" ++ to_lower k.method)

unfoldable pub is_member : Str → List Str → Bool
unfolding str_eq
is_member s xs = any (λ t. str_eq t s) xs

-- A lookup in a Go map of texts.
unfoldable pub get : {V : Type 0} → Str → List (Str × V) → Option V
unfolding str_eq
get k [] = none
get k ((j, v) ∷ m) = let rest = get k m in if str_eq j k then some v else rest

unfoldable pub key_eq : OpKey → OpKey → Bool
unfolding str_eq
key_eq a b = str_eq a.method b.method && str_eq a.path b.path

unfoldable pub get_op : OpKey → List (OpKey × Operation) → Option Operation
unfolding key_eq
get_op k [] = none
get_op k ((j, o) ∷ m) = let rest = get_op k m in if key_eq j k then some o else rest

-- equalStrings
unfoldable pub equal_strings : List Str → List Str → Bool
unfolding str_eq
equal_strings [] [] = true
equal_strings (x ∷ xs) (y ∷ ys) = str_eq x y && equal_strings xs ys
equal_strings _ _ = false

-- missing
unfoldable pub missing : List Str → List Str → List Str
unfolding is_member sort_by str_lt
missing before after = sort_by str_lt (keep (λ s. not (is_member s after)) before)

-- tightened
unfoldable pub tightened : List Str → List Str → Bool
unfolding missing
tightened before after =
    (length before == 0 && ltb 0 (length after))
    || (length (missing before after) == 0 && ltb (length before) (length after))

-- sortedKeys
unfoldable pub sorted_keys : List Str → List Str
unfolding sort_by str_lt
sorted_keys = sort_by str_lt

-- The `less` that Diff sorts its changes by.
unfoldable pub change_less : Change → Change → Bool
unfolding str_eq str_lt signal_name
change_less =
    by_key str_eq str_lt (λ (c : Change). c.op.path)
      (by_key str_eq str_lt (λ (c : Change). c.op.method)
        (λ a b. str_lt (signal_name a.kind) (signal_name b.kind)))

-- The `less` of sortedOps.
unfoldable pub op_less : OpKey × Operation → OpKey × Operation → Bool
unfolding str_eq str_lt
op_less =
    by_key str_eq str_lt (λ (e : OpKey × Operation). e.0.path) (λ a b. str_lt a.0.method b.0.method)
