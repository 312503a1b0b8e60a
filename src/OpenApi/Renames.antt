-- ===== src/OpenApi/Renames.antt =====
-- templateIndex of internal/monitor/analyze/openapi/diff.go against a search of the sorted paths.
use api_integrity_tool.Base.{
  ◌≡◌, ◌∙◌, Bool, not, ◌&&◌, Option, none, some, List, [], ◌∷◌, find_first, arith, if◌then◌else◌,
  Bool-cases, Option-cases, Str, str_eq, str_eq_iff,
}
use api_integrity_tool.OpenApi.Doc.{get, sorted_keys}
use api_integrity_tool.OpenApi.Template.{normalize_template}
use api_integrity_tool.OpenApi.Diff.{note_template, template_index_loop, template_index}

-- The path has a parameter, and `t` is its template.
unfoldable pub has_template : Str → Str → Bool
has_template t q = not (str_eq (normalize_template q) q) && str_eq (normalize_template q) t

-- The first one, and the second one when there is none.
abbrev or_else : Option Str → Option Str → Option Str
or_else none o = o
or_else (some q) o = some q

get-note_template :
    (out : List (Str × Str)) (t p : Str) (rest : Option Str)
    → or_else (get t (note_template out p)) rest
      ≡ or_else (get t out) (if has_template t p then some p else rest)
unfolding note_template get has_template
get-note_template out t p rest = ground (
  arith,
  Bool-cases (str_eq (normalize_template p) p),
  Bool-cases (str_eq (normalize_template p) t),
  Option-cases (get (normalize_template p) out),
  Option-cases (get t out),
  str_eq_iff (normalize_template p) t,
)

get-template_index_loop :
    (out : List (Str × Str)) (t : Str) (ps : List Str)
    → get t (template_index_loop out ps) ≡ or_else (get t out) (find_first (has_template t) ps)
unfolding template_index_loop
get-template_index_loop out t [] = ground (arith, Option-cases (get t out))
get-template_index_loop out t (p ∷ ps) =
    get-template_index_loop (note_template out p) t ps
    ∙ get-note_template out t p (find_first (has_template t) ps)

-- A lookup in the template index finds the first path, in the order of the texts, that has a
-- parameter and this template, and it finds nothing when no path has.
pub template_index_lem :
    (paths : List Str) (t : Str)
    → get t (template_index paths) ≡ find_first (has_template t) (sorted_keys paths)
unfolding template_index get
template_index_lem paths t = get-template_index_loop [] t (sorted_keys paths)
