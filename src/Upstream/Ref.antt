-- ===== src/Upstream/Ref.antt =====
-- ParseRepoRef of internal/upstream/normalize.go. The parser url.Parse is a parameter.
pub mod Safe
use api_integrity_tool.Base.{
  ℕ, Bool, true, false, not, ◌&&◌, ◌||◌, Option, none, some, List, [], ◌∷◌, ◌++◌, if◌then◌else◌,
  ◌==◌, any, keep, Str, codes, str_eq, has_prefix, has_suffix, contains, is_empty, to_lower,
  trim_space, join, split, before_any, from_any, after_last, before_last, cut, drop_first,
  drop_length, trim_suffix, trim,
}
use mathlib.Core.List.{reverse}
use api_integrity_tool.Model.Repo.{RepoRef}

-- The errors, by their messages. `crash` is no error but a panic: a slice whose bounds are crossed.
pub data RefError : Type 0 where
  empty_reference local_path unparseable unsupported_scheme embedded_credentials : RefError
  no_repository unreadable bad_subpath crash : RefError

pub data Parsed {ℓ} (A : Type ℓ) : Type ℓ where
  ok : A → Parsed A
  fail : RefError → Parsed A

infixl 5 ◌>>=◌
abbrev pub ◌>>=◌ {ℓ κ} : {A : Type ℓ} {B : Type κ} → Parsed A → (A → Parsed B) → Parsed B
ok a >>= f = f a
fail e >>= f = fail e

-- What the code reads of a parsed URL.
pub record RepoUrl : Type 0 where
  pub scheme : Str
  pub has_password : Bool
  pub hostname : Str
  pub path : Str

abbrev is_slash : ℕ → Bool
is_slash c = c == b'/'

-- The reference without its pin, and the pin.
unfoldable pub split_pin : Str → Str × Str
unfolding after_last before_last contains
split_pin raw =
    let at = after_last (λ c. c == b'@') raw in
    if any (λ c. c == b'#') raw && not (is_empty (before_last b'#' raw))
    then (before_last b'#' raw, after_last (λ c. c == b'#') raw)
    else if any (λ c. c == b'@') raw
        && (not (is_empty (before_last b'@' raw)) && not (contains at (codes "/")))
    then (before_last b'@' raw, at)
    else (raw, [])

-- The text up to "://", which it includes, and the rest.
unfoldable pub after_scheme : Str → Str × Str
unfolding cut
after_scheme raw = elim (cut (codes "://") raw) [
  | none ↦ ([], raw)
  | some (before, after) ↦ (before ++ codes "://", after)
]

-- The repository, and the subpath behind "//".
unfoldable pub split_subpath : Str → Str × Str
unfolding after_scheme cut
split_subpath raw =
    let (head, rest) = after_scheme raw in
    elim (cut (codes "//") rest) [
      | none ↦ (raw, [])
      | some (before, after) ↦ (head ++ before, after)
    ]

-- splitSegments
unfoldable pub split_segments : Str → List Str
unfolding split
split_segments p = keep (λ s. not (is_empty s)) (split b'/' p)

-- The scp-style branch of splitHostPath. The colon is searched behind the `@`; without one the slice
-- is out of bounds.
unfoldable pub scp_path : Str → Parsed (Str × Str)
unfolding from_any before_any
scp_path raw =
    let behind = drop_first (from_any (λ c. c == b'@') raw) in
    if any (λ c. c == b':') behind
    then ok (before_any (λ c. c == b':') behind, drop_first (from_any (λ c. c == b':') behind))
    else fail crash

unfoldable pub known_scheme : Str → Bool
unfolding str_eq
known_scheme scheme =
    str_eq scheme (codes "http")
    || (str_eq scheme (codes "https")
        || (str_eq scheme (codes "ssh") || str_eq scheme (codes "git")))

unfoldable pub url_path : Option RepoUrl → Parsed (Str × Str)
unfolding known_scheme to_lower
url_path none = fail unparseable
url_path (some u) =
    if not (known_scheme (to_lower u.scheme))
    then fail unsupported_scheme
    else if u.has_password
    then fail embedded_credentials
    else ok (u.hostname, u.path)

-- A path with no scheme: a first segment with a dot is a host.
unfoldable pub bare_path : Str → List Str → Str × Str
unfolding join
bare_path raw [] = (codes "github.com", raw)
bare_path raw (s ∷ segs) =
    if any (λ c. c == b'.') s then (s, join (codes "/") segs) else (codes "github.com", raw)

-- splitHostPath
unfoldable pub split_host_path : (Str → Option RepoUrl) → Str → Parsed (Str × Str)
unfolding contains to_lower scp_path url_path has_prefix split_segments bare_path
split_host_path parse raw =
    if not (contains (to_lower raw) (codes "://"))
      && (any (λ c. c == b'@') raw && any (λ c. c == b':') raw)
    then scp_path raw
    else if contains (to_lower raw) (codes "://")
    then url_path (parse raw)
    else if has_prefix raw (codes "gh:")
    then ok (codes "github.com", drop_length (codes "gh:") raw)
    else ok (bare_path raw (split_segments raw))

-- One round of path.Clean on a path that does not begin with a slash; the stack has its top first.
unfoldable pub clean_step : List Str → Str → List Str
unfolding str_eq
clean_step [] s = if is_empty s || str_eq s (codes ".") then [] else s ∷ []
clean_step (t ∷ stack) s =
    if is_empty s || str_eq s (codes ".")
    then t ∷ stack
    else if str_eq s (codes "..") && not (str_eq t (codes ".."))
    then stack
    else s ∷ t ∷ stack

unfoldable pub clean_steps : List Str → List Str → List Str
unfolding clean_step
clean_steps stack [] = stack
clean_steps stack (s ∷ parts) = clean_steps (clean_step stack s) parts

-- path.Clean of a path that does not begin with a slash
unfoldable pub path_clean : Str → Str
unfolding clean_steps split join
path_clean s =
    let out = join (codes "/") (reverse (clean_steps [] (split b'/' s))) in
    if is_empty out then codes "." else out

-- cleanSubpath
unfoldable pub clean_subpath : Str → Str
unfolding trim trim_space path_clean
clean_subpath s =
    let trimmed = trim is_slash (trim_space s) in
    if is_empty trimmed then [] else path_clean trimmed

-- providerFor
unfoldable pub provider_for : Str → Str
unfolding to_lower str_eq has_suffix contains
provider_for host =
    let h = to_lower host in
    if str_eq h (codes "github.com") || has_suffix h (codes ".github.com")
    then codes "github"
    else if contains h (codes "gitlab")
    then codes "gitlab"
    else codes "generic"

abbrev first_of : Str → Str → Str
first_of [] s = s
first_of (c ∷ r) s = c ∷ r

-- The segments that only name a place in the repository.
abbrev views : List Str
views =
    codes "pull"
    ∷ codes "issues"
    ∷ codes "commit"
    ∷ codes "commits"
    ∷ codes "releases"
    ∷ codes "actions"
    ∷ codes "wiki"
    ∷ codes "compare"
    ∷ []

-- What the segments behind owner and repository say: the pin and the subpath.
unfoldable pub read_rest : List Str → Str → Str → Str × Str
unfolding str_eq join
read_rest [] pin subpath = (pin, subpath)
read_rest (kind ∷ rest) pin subpath =
    if str_eq kind (codes "tree") || str_eq kind (codes "blob")
    then elim rest [
      | [] ↦ (pin, subpath)
      | branch ∷ sub ↦ (first_of pin branch, first_of subpath (join (codes "/") sub))
    ]
    else if any (λ s. str_eq s kind) views
    then (pin, subpath)
    else (pin, first_of subpath (join (codes "/") (kind ∷ rest)))

-- The reference of a host, the segments of a path, a pin and a subpath.
unfoldable pub make_ref : Str → List Str → Str → Str → Parsed RepoRef
unfolding trim_suffix read_rest clean_subpath contains provider_for to_lower trim_space
make_ref host [] pin subpath = fail no_repository
make_ref host (owner ∷ []) pin subpath = fail no_repository
make_ref host (owner ∷ second ∷ rest) pin subpath =
    let name = trim_suffix second (codes ".git") in
    let (ref, sub) = read_rest rest pin subpath in
    let cleaned = clean_subpath sub in
    if is_empty owner || is_empty name
    then fail unreadable
    else if contains cleaned (codes "..")
    then fail bad_subpath
    else ok (record {
      provider = provider_for host;
      git_host = to_lower host;
      owner = owner;
      name = name;
      subpath = cleaned;
      ref = trim_space ref;
    })

-- A text that is neither empty nor a local path.
unfoldable pub parse_raw : (Str → Option RepoUrl) → Str → Parsed RepoRef
unfolding split_pin split_subpath split_host_path split_segments make_ref
parse_raw parse raw =
    let pinned = split_pin raw in
    let sub = split_subpath pinned.0 in
    split_host_path parse sub.0 >>= λ at. make_ref at.0 (split_segments at.1) pinned.1 sub.1

-- ParseRepoRef
unfoldable pub parse_repo_ref : (Str → Option RepoUrl) → Str → Parsed RepoRef
unfolding parse_raw trim_space to_lower has_prefix
parse_repo_ref parse s =
    let raw = trim_space s in
    if is_empty raw
    then fail empty_reference
    else if has_prefix (to_lower raw) (codes "file://")
    then fail local_path
    else parse_raw parse raw
