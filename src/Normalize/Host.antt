-- ===== src/Normalize/Host.antt =====
-- The host and the port of internal/normalize/url.go.
use api_integrity_tool.Base.{
  zero, ◌||◌, none, some, List, [], ◌∷◌, ◌++◌, if◌then◌else◌, ◌==◌, Str, codes, str_eq, is_empty,
  before_any, from_any, drop_first, to_lower,
}
use api_integrity_tool.Normalize.Path.{append_flag}
use api_integrity_tool.Normalize.Segments.{
  Segment, literal, hole, Piece, text, mark, pieces, digits_value, nth_hole,
}

pub data HostKind : Type 0 where
  literal_host env config symbol param relative unknown : HostKind

abbrev pub unknown_host : Str
unknown_host = codes "${unknown}"

abbrev braced : Str → Str → Str
braced kind name = codes "${" ++ (kind ++ (codes ":" ++ (name ++ codes "}")))

unfoldable pub host_of_kind : Str → Str → Str × HostKind
unfolding str_eq
host_of_kind kind name =
    if str_eq kind (codes "env")
    then (braced (codes "env") name, env)
    else if str_eq kind (codes "cfg")
    then (braced (codes "cfg") name, config)
    else if str_eq kind (codes "arg")
    then (braced (codes "arg") name, param)
    else if str_eq kind (codes "sym") || str_eq kind (codes "call")
    then (braced (codes "sym") name, symbol)
    else (unknown_host, unknown)

-- symbolicHost of a hole with this symbol; without a colon the name is empty too
unfoldable pub symbolic_name : Str → Str × HostKind
unfolding before_any from_any host_of_kind
symbolic_name sym =
    let name = drop_first (from_any (λ c. c == b':') sym) in
    if is_empty name
    then (unknown_host, unknown)
    else host_of_kind (before_any (λ c. c == b':') sym) name

-- symbolicHost
unfoldable pub symbolic_host : Segment → Str × HostKind
unfolding symbolic_name
symbolic_host (literal s) = symbolic_name []
symbolic_host (hole sym name src) = symbolic_name sym

unfoldable pub hole_host : List Segment → Str → Str × HostKind
unfolding symbolic_host digits_value
hole_host holes digits = elim (nth_hole (digits_value zero digits) holes) [
  | none ↦ (unknown_host, unknown)
  | some h ↦ symbolic_host h
]

-- The hostname with each sentinel replaced by the host of its hole.
unfoldable pub replace_holes : List Segment → List Piece → Str
unfolding hole_host
replace_holes holes [] = []
replace_holes holes (text s ∷ ps) = s ++ replace_holes holes ps
replace_holes holes (mark digits ∷ ps) = (hole_host holes digits).0 ++ replace_holes holes ps

-- The branches of classifyHost, by the matches in the hostname.
unfoldable pub classify_pieces :
    Str → List Segment → List Str → List Piece → Str × HostKind × List Str
unfolding to_lower hole_host replace_holes append_flag
classify_pieces hostname holes flags [] = (unknown_host, unknown, flags)
classify_pieces hostname holes flags (text s ∷ []) = (to_lower hostname, literal_host, flags)
classify_pieces hostname holes flags (mark digits ∷ []) =
    ((hole_host holes digits).0, (hole_host holes digits).1, flags)
classify_pieces hostname holes flags ps =
    (to_lower (replace_holes holes ps), symbol, append_flag flags (codes "partial_symbolic_host"))

-- classifyHost: the host, its kind and the flags
unfoldable pub classify_host : Str → List Segment → List Str → Str × HostKind × List Str
unfolding classify_pieces pieces
classify_host hostname holes flags = classify_pieces hostname holes flags (pieces hostname)
