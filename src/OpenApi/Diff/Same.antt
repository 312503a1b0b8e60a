-- ===== src/OpenApi/Diff/Same.antt =====
-- Diff of a document with itself.
use api_integrity_tool.Base.{
  ◌≡◌, refl, ap, Bool, true, false, not, ◌&&◌, some, List, [], ◌∷◌, arith, Bool-cases, Option-cases,
  inl, inr, All, All-sort_by, Str, sort_by, str_lt, str_eq_refl, keep, is_empty,
}
use api_integrity_tool.OpenApi.Doc.{
  OpKey, Param, Operation, Doc, Change, get, get_op, is_member, op_less, sorted_keys, equal_strings,
  missing,
}
use api_integrity_tool.OpenApi.Operation.{
  when, in_renamed_path, param_changes, old_params, new_params, body_changes, body_props,
  is_success, field_changes, responses, missing_success, status_changes, security_changes, warnings,
  diff_operation,
}
use api_integrity_tool.OpenApi.Diff.{
  major_of, major_bump, document_changes, path_change, path_changes, operation_change,
  operation_changes, additions, found_changes, diff,
}

-- The list is a Go map: each pair is what a lookup of its key finds.
abbrev pub IsMap : {V : Type 0} → List (Str × V) → Type 0
IsMap m = All (λ e. get e.0 m ≡ some e.1) m

-- The maps of one operation.
abbrev pub HasMaps : OpKey × Operation → Type 0
HasMaps e = IsMap e.1.params × IsMap e.1.response_fields × All (λ r. IsMap r.1) e.1.response_fields

-- The maps of a document.
abbrev pub IsParsed : Doc → Type 0
IsParsed d = All (λ e. get_op e.0 d.operations ≡ some e.1) d.operations × All HasMaps d.operations

equal_strings_refl : (xs : List Str) → equal_strings xs xs ≡ true
unfolding equal_strings
equal_strings_refl [] = refl
equal_strings_refl (x ∷ xs) = ground (arith, str_eq_refl x, equal_strings_refl xs)

member-part :
    (xs ys : List Str)
    → ((x : Str) → is_member x ys ≡ true → is_member x xs ≡ true)
    → All (λ x. is_member x xs ≡ true) ys
unfolding is_member
member-part xs [] f = tt
member-part xs (y ∷ ys) f =
    (f y (ground (arith, str_eq_refl y)), member-part xs ys (λ x h. f x (ground (arith, h))))

-- Each element of a list is a member of it.
member-All : (xs : List Str) → All (λ x. is_member x xs ≡ true) xs
member-All xs = member-part xs xs (λ x h. h)

keep-none : (p : Str → Bool) (xs : List Str) → All (λ x. p x ≡ false) xs → keep p xs ≡ []
keep-none p [] h = refl
keep-none p (x ∷ xs) h = ground (arith, h.0, keep-none p xs h.1)

not-All :
    (xs ys : List Str)
    → All (λ x. is_member x ys ≡ true) xs
    → All (λ x. not (is_member x ys) ≡ false) xs
not-All [] ys h = tt
not-All (x ∷ xs) ys h = (ap not h.0, not-All xs ys h.1)

missing_self : (xs : List Str) → missing xs xs ≡ []
unfolding missing sort_by
missing_self xs =
    ap (sort_by str_lt) (keep-none (λ s. not (is_member s xs)) xs (not-All xs xs (member-All xs)))

when-less : (b : Bool) (c : Change) → when (not b && b) c ≡ []
unfolding when
when-less true c = refl
when-less false c = refl

param_changes_self : (key : OpKey) (name : Str) (p : Param) → param_changes key name p p ≡ []
unfolding param_changes when
param_changes_self key name p =
    rw (missing_self p.enum, str_eq_refl p.type)
      (ground (arith, Bool-cases p.required, Bool-cases (is_empty p.type)))

old_params_self :
    (key : OpKey) (all ps : List (Str × Param))
    → All (λ e. get e.0 all ≡ some e.1) ps
    → old_params key false ps all ≡ []
unfolding old_params in_renamed_path
old_params_self key all [] h = refl
old_params_self key all ((name, p) ∷ ps) h =
    rw (h.0, param_changes_self key name p) (old_params_self key all ps h.1)

new_params_self :
    (key : OpKey) (all ps : List (Str × Param))
    → All (λ e. get e.0 all ≡ some e.1) ps
    → new_params key false all ps ≡ []
unfolding new_params
new_params_self key all [] h = refl
new_params_self key all ((name, p) ∷ ps) h = rw (new_params, h.0) (new_params_self key all ps h.1)

body_props_self :
    (key : OpKey) (all xs : List Str)
    → All (λ x. is_member x all ≡ true) xs
    → body_props key all xs ≡ []
unfolding body_props
body_props_self key all [] h = refl
body_props_self key all (x ∷ xs) h = rw (h.0) (body_props_self key all xs h.1)

field_changes_self :
    (key : OpKey) (code : Str) (all fs : List (Str × Bool))
    → All (λ e. get e.0 all ≡ some e.1) fs
    → field_changes key code fs all ≡ []
unfolding field_changes
field_changes_self key code all [] h = refl
field_changes_self key code all ((name, b) ∷ fs) h =
    rw (field_changes, h.0) (field_changes_self key code all fs h.1)

responses_self :
    (key : OpKey) (all rs : List (Str × List (Str × Bool)))
    → All (λ e. get e.0 all ≡ some e.1) rs
    → All (λ r. IsMap r.1) rs
    → responses key rs all ≡ []
unfolding responses
responses_self key all [] h m = refl
responses_self key all ((code, fields) ∷ rs) h m =
    let rest = responses_self key all rs h.1 m.1 in
    let here =
      field_changes_self key code fields (sort_by (λ (a b : Str × Bool). str_lt a.0 b.0) fields) (
        All-sort_by (λ (a b : Str × Bool). str_lt a.0 b.0) (λ e. get e.0 fields ≡ some e.1) fields
          m.0) in
    elim (Bool-cases (is_success code)) [ inr e ↦ rw e rest | inl e ↦ rw (e, h.0, here) rest ]

status_changes_self : (key : OpKey) (o : Operation) → status_changes key o o ≡ []
unfolding status_changes missing_success when
status_changes_self key o = ground (arith, missing_self (keep is_success o.statuses))

diff_operation_self :
    (key : OpKey) (o : Operation) → HasMaps (key, o) → diff_operation o o false ≡ []
unfolding diff_operation body_changes security_changes warnings when
diff_operation_self key o h =
    rw
      (
        old_params_self o.key o.params o.params h.0,
        new_params_self o.key o.params o.params h.0,
        body_props_self o.key o.body_required_props o.body_required_props
            (member-All o.body_required_props),
        responses_self o.key o.response_fields o.response_fields h.1 h.2,
        status_changes_self o.key o,
        equal_strings_refl o.security,
      )
      (ground (
        arith,
        Bool-cases o.body_required,
        Bool-cases o.deprecated,
        Bool-cases (is_empty o.sunset),
      ))

path_changes_self :
    (all ps : List Str) → All (λ p. is_member p all ≡ true) ps → path_changes all ps ≡ []
unfolding path_changes path_change
path_changes_self all [] h = refl
path_changes_self all (p ∷ ps) h = rw (h.0) (path_changes_self all ps h.1)

operation_changes_self :
    (d : Doc) (ops : List (OpKey × Operation))
    → All (λ e. get_op e.0 d.operations ≡ some e.1) ops
    → All HasMaps ops
    → operation_changes d ops ≡ []
unfolding operation_changes operation_change
operation_changes_self d [] h m = refl
operation_changes_self d ((key, o) ∷ ops) h m =
    rw (operation_change, h.0, diff_operation_self key o m.0) (operation_changes_self d ops h.1 m.1)

additions_self :
    (all ops : List (OpKey × Operation))
    → All (λ e. get_op e.0 all ≡ some e.1) ops
    → additions all ops ≡ []
unfolding additions
additions_self all [] h = refl
additions_self all ((key, o) ∷ ops) h = rw (additions, h.0) (additions_self all ops h.1)

major_bump_self : (v : Str) → major_bump v v ≡ false
unfolding major_bump
major_bump_self v = ground (arith, Option-cases (major_of v))

document_changes_self : (d : Doc) → document_changes d d ≡ []
unfolding document_changes when
document_changes_self d =
    rw (equal_strings_refl d.servers, equal_strings_refl d.security, major_bump_self d.info_version)
      refl

-- A document compared with itself has no change, if its operations, parameters, responses and
-- response fields are maps, which have one value for each key.
pub diff_self : (d : Doc) → IsParsed d → diff d d ≡ []
unfolding diff found_changes sort_by sorted_keys
diff_self d h =
    let ops = All-sort_by op_less (λ e. get_op e.0 d.operations ≡ some e.1) d.operations h.0 in
    rw
      (
        document_changes_self d,
        path_changes_self d.paths (sort_by str_lt d.paths)
            (All-sort_by str_lt (λ p. is_member p d.paths ≡ true) d.paths (member-All d.paths)),
        operation_changes_self d (sort_by op_less d.operations) ops
            (All-sort_by op_less HasMaps d.operations h.1),
        additions_self d.operations (sort_by op_less d.operations) ops,
      )
      refl
