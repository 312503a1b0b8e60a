-- ===== src/Normalize/Build.antt =====
-- splitQuery, queryKeys and buildPath of internal/normalize/url.go.
pub mod Cleaned
pub mod Plain
pub mod Keys
use api_integrity_tool.Base.{
  ℕ, suc, zero, ◌+◌, Bool, true, false, not, ◌&&◌, ◌||◌, Option, none, some, List, [], ◌∷◌, ◌++◌,
  if◌then◌else◌, ltb, leb, ◌==◌, length, any, Str, codes, str_eq, str_lt, has_suffix, contains,
  is_empty, split, before_any, from_any, drop_first, trim_space, to_lower, sort_by,
}
use api_integrity_tool.Normalize.Path.{append_flag, clean_path}
use api_integrity_tool.Normalize.Token.{to_snake, last_ident, is_positional_verb}
use api_integrity_tool.Normalize.Ids.{PathVar, Options, collapse_id_segments}
use api_integrity_tool.Normalize.Segments.{Segment, literal, hole, itoa, has_sentinel}

abbrev pub is_query : ℕ → Bool
is_query c = c == b'?' || c == b'#'

-- One round of the loop of queryKeys, over the keys seen so far.
unfoldable pub note_key : List Str → Str → List Str
unfolding before_any trim_space has_sentinel str_eq
note_key seen kv =
    let k = trim_space (before_any (λ c. c == b'=') kv) in
    if is_empty kv
    then seen
    else if not (is_empty k) && not (has_sentinel k)
    then if any (λ s. str_eq s k) seen then seen else k ∷ seen
    else seen

unfoldable pub note_keys : List Str → List Str → List Str
unfolding note_key
note_keys seen [] = seen
note_keys seen (kv ∷ kvs) = note_keys (note_key seen kv) kvs

-- queryKeys
unfoldable pub query_keys : Str → List Str
unfolding note_keys split sort_by str_lt
query_keys [] = []
query_keys (c ∷ raw) = sort_by str_lt (note_keys [] (split b'&' (c ∷ raw)))

-- The query in a text that begins with the first `?` or `#`.
unfoldable pub raw_query : Str → Str
unfolding before_any
raw_query [] = []
raw_query (c ∷ s) = if c == b'?' then before_any (λ d. d == b'#') s else []

abbrev pub literal_head : Str → List Segment
literal_head [] = []
literal_head (c ∷ s) = literal (c ∷ s) ∷ []

-- splitQuery
unfoldable pub split_query : List Segment → List Segment × List Str
unfolding before_any from_any raw_query query_keys
split_query [] = ([], [])
split_query (hole sym name src ∷ segs) =
    let rest = split_query segs in (hole sym name src ∷ rest.0, rest.1)
split_query (literal s ∷ segs) =
    let rest = split_query segs in
    let tail = from_any is_query s in
    if is_empty tail
    then (literal s ∷ rest.0, rest.1)
    else (literal_head (before_any is_query s), query_keys (raw_query tail))

abbrev pub path_like_names : List Str
path_like_names =
    codes "path"
    ∷ codes "endpoint"
    ∷ codes "route"
    ∷ codes "uri"
    ∷ codes "url"
    ∷ codes "suffix"
    ∷ codes "rest"
    ∷ codes "subpath"
    ∷ codes "resource"
    ∷ codes "pathname"
    ∷ codes "urlpath"
    ∷ codes "relative"
    ∷ codes "rel"
    ∷ []

-- The variables of the loop of buildPath.
pub record Building : Type 0 where
  pub out : Str
  pub vars : List PathVar
  pub positional : ℕ
  pub flags : List Str

-- A hole that ends the path and may stand for more than one segment.
unfoldable pub is_wide : Str → Bool → Bool
unfolding last_ident to_lower str_eq
is_wide name is_last =
    is_last && (is_empty name || any (λ s. str_eq s (to_lower (last_ident name))) path_like_names)

unfoldable pub wide_tail : Str → Str → Building → Building
unfolding has_suffix append_flag
wide_tail name source b = record b {
  out = (if has_suffix b.out (codes "/") then b.out else b.out ++ codes "/") ++ codes "**";
  flags = append_flag b.flags (codes "wide_tail");
  vars =
      if is_empty name
      then b.vars
      else b.vars ++ record { token = codes "/**"; source = source } ∷ [];
}

unfoldable pub is_positional : Str → Bool
unfolding is_positional_verb
is_positional name = is_empty name || is_positional_verb name

unfoldable pub hole_token : Str → ℕ → Str
unfolding is_positional itoa to_snake last_ident
hole_token name positional =
    if is_positional name
    then codes "{p" ++ (itoa (positional + 1) ++ codes "}")
    else codes "{" ++ (to_snake (last_ident name) ++ codes "}")

unfoldable pub add_token : Str → Str → Building → Building
unfolding hole_token is_positional
add_token name source b = record b {
  out = b.out ++ hole_token name b.positional;
  vars = b.vars ++ record { token = hole_token name b.positional; source = source } ∷ [];
  positional = if is_positional name then b.positional + 1 else b.positional;
}

abbrev pub is_last_of : List Segment → Bool
is_last_of [] = true
is_last_of (s ∷ segs) = false

-- One round of the loop of buildPath.
unfoldable pub build_segment : Segment → Bool → Building → Building
unfolding is_wide wide_tail add_token trim_space
build_segment (literal s) is_last b = record b { out = b.out ++ s }
build_segment (hole sym name src) is_last b =
    if is_wide (trim_space name) is_last
    then wide_tail (trim_space name) name b
    else add_token (trim_space name) name b

unfoldable pub build_loop : List Segment → Building → Building
unfolding build_segment
build_loop [] b = b
build_loop (s ∷ segs) b = build_loop segs (build_segment s (is_last_of segs) b)

-- What buildPath returns.
pub record Built : Type 0 where
  pub path : Str
  pub vars : List PathVar
  pub query_keys : List Str
  pub trailing : Bool
  pub flags : List Str

unfoldable pub started : List Str → Building
started flags = record { out = []; vars = []; positional = zero; flags = flags }

-- buildPath
unfoldable pub build_path : List Segment → Options → List Str → Built
unfolding split_query build_loop started clean_path collapse_id_segments contains
build_path segs opts flags =
    let cut = split_query segs in
    let b = build_loop cut.0 (started flags) in
    let had_hole = not (length b.vars == 0) || contains b.out (codes "**") in
    let cleaned = clean_path b.out had_hole b.flags in
    let collapsed = collapse_id_segments cleaned.0 opts cleaned.2 b.vars in
    record {
      path = collapsed.0;
      vars = collapsed.2;
      query_keys = cut.1;
      trailing = cleaned.1;
      flags = collapsed.1;
    }
