-- ===== src/OpenApi/Tests.antt =====
-- The theorems on the diff at concrete documents, and tests of its functions.
use api_integrity_tool.Base.{
  ◌≡◌, refl, Bool, true, false, none, some, List, [], ◌∷◌, ◌++◌, All, map, find_first, arith, Str,
  codes,
}
use api_integrity_tool.OpenApi.Doc.{
  OpKey, Param, Operation, Doc, Signal, Change, get, get_op, sorted_keys,
}
use api_integrity_tool.OpenApi.Template.{IsName, normalize_template, normalize_template_lem}
use api_integrity_tool.OpenApi.Operation.{atoi, is_success, when}
use api_integrity_tool.OpenApi.Diff.{op_key, major_bump, template_index, diff}
use api_integrity_tool.OpenApi.Diff.Verdict.{IsJudged, diff-IsJudged}
use api_integrity_tool.OpenApi.Diff.Same.{diff_self}
use api_integrity_tool.OpenApi.Renames.{has_template, template_index_lem}

abbrev param : Str → Bool → Param
param name required = record {
  name = name;
  position = codes "query";
  required = required;
  type = codes "string";
  enum = codes "a" ∷ [];
}

abbrev operation : OpKey → List (Str × Param) → Operation
operation key params = record {
  key = key;
  deprecated = false;
  sunset = [];
  params = params;
  body_required = false;
  body_required_props = codes "id" ∷ [];
  response_fields = (codes "200", (codes "name", true) ∷ []) ∷ [];
  statuses = codes "200" ∷ [];
  security = [];
  has_security = false;
}

abbrev document : Str → Str → List (Str × Param) → Doc
document version path params = record {
  spec_version = codes "3.0.0";
  info_version = version;
  servers = [];
  operations = (op_key (codes "GET") path, operation (op_key (codes "GET") path) params) ∷ [];
  security = [];
  paths = path ∷ [];
}

abbrev old_doc : Doc
old_doc = document (codes "1.0") (codes "/k/{a}") ((codes "q", param (codes "q") true) ∷ [])

abbrev new_doc : Doc
new_doc = document (codes "2.0") (codes "/k/{b}") []

atoi-test :
    (atoi (codes "+204") ≡ some 204)
    × (atoi (codes "2x") ≡ none)
    × (is_success (codes "2XX") ≡ true)
unfolding atoi is_success
atoi-test = (refl, refl, refl)

major_bump-test :
    (major_bump (codes "v1.9") (codes "2") ≡ true)
    × (major_bump (codes "2.0") (codes "1.0") ≡ false)
unfolding major_bump
major_bump-test = (refl, refl)

-- A renamed path parameter is no removal, and the lost query parameter is still reported.
diff-test :
    map {B = Signal × Bool} (λ (c : Change). (c.kind, c.breaking)) (diff old_doc new_doc)
    ≡ (Signal.major_version_bump, false)
      ∷ (Signal.param_renamed, false)
      ∷ (Signal.param_removed, false)
      ∷ (Signal.additive, false)
      ∷ []
unfolding diff when
diff-test = refl

diff-IsJudged_example : All IsJudged (diff old_doc new_doc)
diff-IsJudged_example = diff-IsJudged old_doc new_doc

diff_self_example : diff old_doc old_doc ≡ []
unfolding get get_op
diff_self_example = diff_self old_doc ((refl, tt), (((refl, tt), (refl, tt), ((refl, tt), tt)), tt))

template_index_lem_example :
    get (codes "/k/{}") (template_index (codes "/k/{b}" ∷ codes "/k/{a}" ∷ []))
    ≡ find_first (has_template (codes "/k/{}")) (sorted_keys (codes "/k/{b}" ∷ codes "/k/{a}" ∷ []))
template_index_lem_example =
    template_index_lem (codes "/k/{b}" ∷ codes "/k/{a}" ∷ []) (codes "/k/{}")

a-IsName : IsName (codes "a")
a-IsName = ground arith

bc-IsName : IsName (codes "bc")
bc-IsName = ground arith

normalize_template_lem_example :
    (normalize_template (normalize_template (codes "/x/{y")) ≡ normalize_template (codes "/x/{y"))
    × (normalize_template (codes "/k/" ++ b'{' ∷ (codes "a" ++ b'}' ∷ codes "/x"))
        ≡ normalize_template (codes "/k/" ++ b'{' ∷ (codes "bc" ++ b'}' ∷ codes "/x")))
normalize_template_lem_example =
    normalize_template_lem (codes "/x/{y") (codes "/k/") (codes "a") (codes "bc") (codes "/x")
      a-IsName bc-IsName
