-- ===== src/Monitor/Match.antt =====
-- internal/monitor/target.go: the endpoints of this repository, prepared for a search in upstream text, and
-- the search. The normal template and the expression of a path, which are made by regular expressions,
-- are left out, and with them MatchOperation.
pub mod Hits
use api_integrity_tool.Base.{
  ℕ, Bool, true, false, not, ◌&&◌, ◌||◌, List, [], ◌∷◌, ◌++◌, if◌then◌else◌, ◌==◌, any, keep, map,
  length, leb, Str, codes, str_eq, str_lt, is_empty, has_prefix, has_suffix, contains, to_lower,
  trim_space, trim, split, join, sort_by, ℤ,
}
use api_integrity_tool.Index.Calls.{Call}
use api_integrity_tool.Normalize.Segments.{itoa}
use api_integrity_tool.Monitor.Notes.{append_unique}

pub record Target : Type 0 where
  pub id : Str
  pub method : Str
  pub path : Str
  pub call_site : Str
  pub score : ℤ
  pub variants : List Str
  pub segments : List Str
  pub distinctive : List Str

abbrev structural_tokens : List Str
structural_tokens =
    codes "api"
    ∷ codes "rest"
    ∷ codes "public"
    ∷ codes "internal"
    ∷ codes "graphql"
    ∷ codes "latest"
    ∷ codes "current"
    ∷ codes "service"
    ∷ codes "services"
    ∷ codes "v1"
    ∷ codes "v2"
    ∷ codes "v3"
    ∷ codes "v4"
    ∷ codes "v5"
    ∷ codes "v6"
    ∷ codes "v7"
    ∷ codes "v8"
    ∷ codes "v9"
    ∷ codes "v10"
    ∷ codes "health"
    ∷ codes "status"
    ∷ codes "ping"
    ∷ codes "index"
    ∷ codes "root"
    ∷ codes "default"
    ∷ []

-- A segment that can tell an endpoint from others.
unfoldable pub is_distinctive : Str → Bool
unfolding str_eq to_lower has_prefix
is_distinctive s =
    leb 4 (length s)
    && (not (any (λ w. str_eq w (to_lower s)) structural_tokens)
        && (not (has_prefix s (codes "{")) && not (str_eq s (codes "**"))))

-- The spellings of a placeholder.
abbrev styles : List (Str → Str)
styles =
    (λ n. codes "{" ++ (n ++ codes "}"))
    ∷ (λ n. codes ":" ++ n)
    ∷ (λ n. codes "<" ++ (n ++ codes ">"))
    ∷ (λ n. codes "[" ++ (n ++ codes "]"))
    ∷ (λ n. codes "*")
    ∷ []

unfoldable pub styled : (Str → Str) → Str → Str
unfolding has_prefix has_suffix trim
styled style s =
    if has_prefix s (codes "{") && has_suffix s (codes "}")
    then style (trim (λ c. c == b'{' || c == b'}') s)
    else s

unfoldable pub add_variant : Str → List Str → List Str
unfolding append_unique
add_variant s out = if is_empty s then out else append_unique out s

unfoldable pub style_loop : List Str → List (Str → Str) → List Str → List Str
unfolding add_variant styled join
style_loop segs [] out = out
style_loop segs (style ∷ rest) out =
    style_loop segs rest (add_variant (join (codes "/") (map (styled style) segs)) out)

-- variantsOf
unfoldable pub variants_of : Str → List Str
unfolding style_loop add_variant split has_prefix
variants_of path =
    let segs = split b'/' path in
    if any (λ s. has_prefix s (codes "{")) segs
    then style_loop segs styles (add_variant path [])
    else add_variant path []

-- newTarget
unfoldable pub new_target : Call → Target
unfolding is_distinctive variants_of split trim itoa
new_target c =
    let segs = keep (λ s. not (is_empty s)) (split b'/' (trim (λ d. d == b'/') c.path)) in
    record {
      id = c.id;
      method = c.method;
      path = c.path;
      call_site = c.location.file ++ (codes ":" ++ itoa c.location.line);
      score = c.score;
      variants = variants_of c.path;
      segments = segs;
      distinctive = keep is_distinctive segs;
    }

-- The tests of MatchText for one target: a spelling of its path, and a distinctive segment.
unfoldable pub is_named : Str → Target → Bool
unfolding contains
is_named line t =
    any (λ v. leb 2 (length v) && contains line v) t.variants
    && (leb 2 (length t.segments) && any (λ d. contains line d) t.distinctive)

-- One target for each id.
unfoldable pub one_per_id : List Target → List Target
unfolding str_eq
one_per_id [] = []
one_per_id (t ∷ ts) = t ∷ keep (λ u. not (str_eq t.id u.id)) (one_per_id ts)

abbrev pub id_less : Target → Target → Bool
id_less a b = str_lt a.id b.id

-- MatchText; of targets with one id, which the map of the code gives in any order, the first is taken
unfoldable pub match_text : List Target → Str → List Target
unfolding is_named one_per_id sort_by str_lt trim_space
match_text ts line =
    if is_empty (trim_space line)
    then []
    else sort_by id_less (one_per_id (keep (is_named line) ts))
