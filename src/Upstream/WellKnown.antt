-- ===== src/Upstream/WellKnown.antt =====
-- LookupWellKnown and GuessRepo of internal/upstream/wellknown.go. The table, which the code reads from
-- an embedded file, and the parser url.Parse are parameters.
pub mod Lookup
use api_integrity_tool.Base.{
  ℕ, Bool, true, false, not, ◌&&◌, ◌||◌, Option, none, some, List, [], ◌∷◌, ◌++◌, if◌then◌else◌,
  ◌==◌, any, Str, codes, str_eq, has_prefix, has_suffix, is_empty, to_lower, trim_space, split,
  drop_length,
}
use api_integrity_tool.Model.Repo.{RepoRef, Role}
use api_integrity_tool.Upstream.Ref.{RepoUrl, Parsed, ok, fail, parse_repo_ref}

pub record WellKnown : Type 0 where
  pub host : Str
  pub vendor : Str
  pub repo : Str
  pub role : Role

-- A Guess; its confidence is counted in hundredths.
pub record Guess : Type 0 where
  pub repo : RepoRef
  pub why : Str
  pub confidence : ℕ

-- The pattern is the host.
unfoldable pub is_exact : Str → WellKnown → Bool
unfolding str_eq to_lower
is_exact h e = str_eq (to_lower e.host) h

-- The pattern is a wildcard that takes the host.
unfoldable pub is_wildcard : Str → WellKnown → Bool
unfolding has_prefix has_suffix to_lower
is_wildcard h e =
    has_prefix (to_lower e.host) (codes "*.")
    && has_suffix h (codes "." ++ drop_length (codes "*.") (to_lower e.host))

abbrev pub or_first : Option WellKnown → WellKnown → Option WellKnown
or_first none e = some e
or_first (some w) e = some w

-- The loop of LookupWellKnown, with the wildcard so far.
unfoldable pub lookup_loop : Str → Option WellKnown → List WellKnown → Option WellKnown
unfolding is_exact is_wildcard
lookup_loop h wildcard [] = wildcard
lookup_loop h wildcard (e ∷ table) =
    let rest = lookup_loop h (if is_wildcard h e then or_first wildcard e else wildcard) table in
    if is_exact h e then some e else rest

-- LookupWellKnown
unfoldable pub lookup_well_known : List WellKnown → Str → Option WellKnown
unfolding lookup_loop to_lower trim_space
lookup_well_known table host = lookup_loop (to_lower (trim_space host)) none table

-- isSymbolicHost
unfoldable pub is_symbolic_host : Str → Bool
unfolding has_prefix str_eq
is_symbolic_host host = has_prefix host (codes "${") || str_eq host (codes "self")

abbrev service_prefixes : List Str
service_prefixes =
    codes "api"
    ∷ codes "www"
    ∷ codes "app"
    ∷ codes "rest"
    ∷ codes "graph"
    ∷ codes "hooks"
    ∷ codes "sandbox"
    ∷ codes "staging"
    ∷ codes "dev"
    ∷ codes "test"
    ∷ []

-- The loop of hostLabel, and the first part that it leaves.
unfoldable pub drop_services : List Str → Str
unfolding str_eq
drop_services [] = []
drop_services (p ∷ []) = p
drop_services (p ∷ q ∷ parts) =
    let rest = drop_services (q ∷ parts) in
    if any (λ s. str_eq s p) service_prefixes then rest else p

-- hostLabel
unfoldable pub host_label : Str → Str
unfolding is_symbolic_host drop_services split to_lower trim_space
host_label host =
    let h = to_lower (trim_space host) in
    if is_symbolic_host h || is_empty h then [] else drop_services (split b'.' h)

-- The guess from the owner of this repository.
unfoldable pub own_guess : Parsed RepoRef → Str → List Guess
unfolding host_label str_eq to_lower
own_guess (fail e) host = []
own_guess (ok mine) host =
    let label = host_label host in
    if not (is_empty label) && str_eq (to_lower label) (to_lower mine.owner)
    then record {
      repo = record {
        provider = mine.provider;
        git_host = mine.git_host;
        owner = mine.owner;
        name = codes "api";
        subpath = [];
        ref = [];
      };
      why = codes "host label matches this repository's organisation " ++ mine.owner;
      confidence = 50;
    }
      ∷ []
    else []

-- The guess from the name of the host.
unfoldable pub name_guess : Str → List Guess
unfolding host_label
name_guess host =
    let label = host_label host in
    if is_empty label
    then []
    else record {
      repo = record {
        provider = codes "github";
        git_host = codes "github.com";
        owner = label;
        name = label;
        subpath = [];
        ref = [];
      };
      why = codes "derived from the hostname";
      confidence = 30;
    }
      ∷ []

module _ (parse : Str → Option RepoUrl) (table : List WellKnown) where
  -- The guesses for a host that the table does not settle.
  unfoldable pub weak_guesses : Str → Str → List Guess
  unfolding is_symbolic_host own_guess name_guess parse_repo_ref
  weak_guesses host remote =
      if is_symbolic_host host
      then []
      else (if is_empty remote then [] else own_guess (parse_repo_ref parse remote) host)
        ++ name_guess host

  unfoldable pub table_guess : Str → Str → WellKnown → Parsed RepoRef → List Guess
  unfolding weak_guesses
  table_guess host remote wk (ok ref) =
      record {
        repo = ref;
        why = codes "well-known " ++ (wk.vendor ++ codes " API");
        confidence = 100;
      }
      ∷ []
  table_guess host remote wk (fail e) = weak_guesses host remote

  -- GuessRepo
  unfoldable pub guess_repo : Str → Str → List Guess
  unfolding lookup_well_known table_guess weak_guesses parse_repo_ref
  guess_repo host remote = elim (lookup_well_known table host) [
    | none ↦ weak_guesses host remote
    | some wk ↦ table_guess host remote wk (parse_repo_ref parse wk.repo)
  ]
