-- ===== src/Monitor/FileClass.antt =====
-- internal/monitor/analyze/fileclass.go: what kind of file a path is, and what a change to it may mean.
use api_integrity_tool.Base.{
  ℕ, Bool, true, false, not, ◌||◌, List, [], ◌∷◌, if◌then◌else◌, ◌==◌, any, Str, codes, str_eq,
  has_prefix, has_suffix, contains, to_lower, after_last, trim_left, trim_prefix, trim_suffix,
}
use mathlib.Core.List.{reverse}

pub data Class : Type 0 where
  spec routes source config test doc vendor generated lock binary : Class

-- Weight, in hundredths
unfoldable pub weight : Class → ℕ
weight spec = 100
weight routes = 100
weight source = 90
weight config = 70
weight _ = 25

-- CanBreak
unfoldable pub can_break : Class → Bool
can_break spec = true
can_break routes = true
can_break source = true
can_break config = true
can_break _ = false

abbrev is_slash : ℕ → Bool
is_slash c = c == b'/'

-- The last element of a path whose slashes at the end are cut off.
unfoldable pub last_element : Str → Str
unfolding after_last
last_element [] = codes "/"
last_element (c ∷ s) = after_last is_slash (c ∷ s)

-- path.Base
unfoldable pub path_base : Str → Str
unfolding last_element trim_left
path_base [] = codes "."
path_base (c ∷ s) = last_element (reverse (trim_left is_slash (reverse (c ∷ s))))

-- path.Ext
unfoldable pub path_ext : Str → Str
unfolding after_last
path_ext p =
    let base = after_last is_slash p in
    if any (λ c. c == b'.') base then b'.' ∷ after_last (λ c. c == b'.') base else []

abbrev pub has_any_suffix : Str → List Str → Bool
has_any_suffix s ws = any (λ w. has_suffix s w) ws

abbrev pub contains_any : Str → List Str → Bool
contains_any s ws = any (λ w. contains s w) ws

abbrev pub is_one_of : Str → List Str → Bool
is_one_of s ws = any (λ w. str_eq w s) ws

-- A path below one of the folders, at its root or deeper.
abbrev pub in_folder : List Str → Str → Bool
in_folder dirs lower = any (λ d. has_prefix lower d || contains (b'/' ∷ lower) (b'/' ∷ d)) dirs

abbrev vendor_dirs : List Str
vendor_dirs =
    codes "vendor/"
    ∷ codes "node_modules/"
    ∷ codes "third_party/"
    ∷ codes "3rdparty/"
    ∷ codes "external/"
    ∷ codes "site-packages/"
    ∷ codes ".venv/"
    ∷ codes "venv/"
    ∷ codes "target/"
    ∷ codes "dist/"
    ∷ codes "build/"
    ∷ codes "Pods/"
    ∷ codes "Carthage/"
    ∷ codes ".gradle/"
    ∷ []

abbrev test_markers : List Str
test_markers =
    codes "/testdata/"
    ∷ codes "/tests/"
    ∷ codes "/test/"
    ∷ codes "/spec/"
    ∷ codes "/__tests__/"
    ∷ codes "/cypress/"
    ∷ codes "/e2e/"
    ∷ codes "/features/"
    ∷ codes "/fixtures/"
    ∷ codes "/mocks/"
    ∷ codes "/__mocks__/"
    ∷ []

abbrev doc_dirs : List Str
doc_dirs =
    codes "docs/"
    ∷ codes "doc/"
    ∷ codes "documentation/"
    ∷ codes "website/"
    ∷ codes "examples/"
    ∷ codes "example/"
    ∷ []

abbrev spec_names : List Str
spec_names =
    codes "openapi" ∷ codes "swagger" ∷ codes "api-docs" ∷ codes "apispec" ∷ codes "api_spec" ∷ []

-- IsSpecPath
unfoldable pub is_spec_path : Str → Bool
unfolding to_lower path_base path_ext str_eq contains trim_suffix
is_spec_path p =
    let lower = to_lower p in
    let base = path_base lower in
    let ext = path_ext base in
    if not (is_one_of ext (codes ".yaml" ∷ codes ".yml" ∷ codes ".json" ∷ []))
    then is_one_of ext (codes ".proto" ∷ codes ".graphql" ∷ codes ".graphqls" ∷ [])
    else contains_any (trim_suffix base ext) spec_names
      || contains_any (b'/' ∷ trim_suffix lower base) (
          codes "/openapi/"
          ∷ codes "/spec/openapi/"
          ∷ codes "/specs/"
          ∷ codes "/api/spec/"
          ∷ codes "/docs/api/"
          ∷ [])

abbrev route_hints : List Str
route_hints =
    codes "routes"
    ∷ codes "route"
    ∷ codes "router"
    ∷ codes "urls"
    ∷ codes "controller"
    ∷ codes "handler"
    ∷ codes "endpoints"
    ∷ codes "web.php"
    ∷ codes "api.php"
    ∷ []

-- IsRoutePath
unfoldable pub is_route_path : Str → Bool
unfolding to_lower path_base contains has_suffix
is_route_path p =
    let lower = to_lower p in
    contains_any (path_base lower) route_hints
    || (has_any_suffix lower (codes "config/routes.rb" ∷ codes "urls.py" ∷ [])
        || contains_any lower (codes "/app/api/" ∷ codes "/pages/api/" ∷ []))

unfoldable pub is_vendored : Str → Bool
unfolding has_prefix contains
is_vendored lower = in_folder vendor_dirs lower

unfoldable pub is_generated : Str → Bool
unfolding has_suffix contains
is_generated lower =
    has_any_suffix lower (
      codes ".pb.go"
      ∷ codes "_pb2.py"
      ∷ codes ".generated.go"
      ∷ codes "_gen.go"
      ∷ codes ".g.dart"
      ∷ codes ".designer.cs"
      ∷ [])
    || contains lower (codes ".generated.")

unfoldable pub is_lock : Str → Bool
unfolding path_base has_suffix str_eq
is_lock lower =
    has_suffix (path_base lower) (codes ".lock")
    || is_one_of (path_base lower) (
        codes "go.sum"
        ∷ codes "package-lock.json"
        ∷ codes "yarn.lock"
        ∷ codes "gemfile.lock"
        ∷ codes "poetry.lock"
        ∷ codes "pnpm-lock.yaml"
        ∷ codes "cargo.lock"
        ∷ codes "composer.lock"
        ∷ [])

unfoldable pub is_binary : Str → Bool
unfolding path_ext str_eq
is_binary lower = is_one_of (path_ext lower) (
    codes ".png"
    ∷ codes ".jpg"
    ∷ codes ".jpeg"
    ∷ codes ".gif"
    ∷ codes ".pdf"
    ∷ codes ".zip"
    ∷ codes ".gz"
    ∷ codes ".jar"
    ∷ codes ".class"
    ∷ codes ".so"
    ∷ codes ".dylib"
    ∷ codes ".dll"
    ∷ codes ".exe"
    ∷ codes ".woff"
    ∷ codes ".woff2"
    ∷ codes ".ico"
    ∷ codes ".mp4"
    ∷ [])

unfoldable pub is_test : Str → Bool
unfolding contains has_suffix has_prefix path_base
is_test lower =
    contains_any (b'/' ∷ lower) test_markers
    || (has_any_suffix lower (
          codes "_test.go"
          ∷ codes "_test.py"
          ∷ codes "_spec.rb"
          ∷ codes "_test.rb"
          ∷ codes "test.java"
          ∷ codes "tests.cs"
          ∷ codes ".t"
          ∷ [])
        || (has_prefix (path_base lower) (codes "test_")
            || contains_any (path_base lower) (codes ".test." ∷ codes ".spec." ∷ [])))

-- The classes by folder and extension that are tried last.
unfoldable pub plain_class : Str → Class
unfolding has_prefix contains path_ext str_eq
plain_class lower =
    if in_folder doc_dirs lower
      || is_one_of (path_ext lower) (codes ".md" ∷ codes ".rst" ∷ codes ".txt" ∷ codes ".adoc" ∷ [])
    then doc
    else if is_one_of (path_ext lower) (
        codes ".yml"
        ∷ codes ".yaml"
        ∷ codes ".toml"
        ∷ codes ".ini"
        ∷ codes ".env"
        ∷ codes ".properties"
        ∷ codes ".conf"
        ∷ codes ".json"
        ∷ [])
    then config
    else source

-- Classify
unfoldable pub classify : Str → Class
unfolding to_lower trim_prefix is_vendored is_generated is_lock is_binary is_spec_path is_test
    is_route_path plain_class
classify p =
    let lower = to_lower (trim_prefix p (codes "./")) in
    if is_vendored lower
    then vendor
    else if is_generated lower
    then generated
    else if is_lock lower
    then lock
    else if is_binary lower
    then binary
    else if is_spec_path p
    then spec
    else if is_test lower
    then test
    else if is_route_path p
    then routes
    else plain_class lower
