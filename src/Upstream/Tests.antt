-- ===== src/Upstream/Tests.antt =====
-- The theorems on repository references at concrete texts, and tests of the functions.
use api_integrity_tool.Base.{
  ◌≡◌, refl, false, Option, some, List, [], ◌∷◌, Str, codes, find_first, to_lower, trim_space,
}
use api_integrity_tool.Model.Repo.{RepoRef, spec_only}
use api_integrity_tool.Upstream.Ref.{
  RepoUrl, ok, fail, crash, bad_subpath, no_repository, local_path, parse_repo_ref,
}
use api_integrity_tool.Upstream.WellKnown.{
  WellKnown, is_exact, is_wildcard, lookup_well_known, host_label,
}
use api_integrity_tool.Upstream.WellKnown.Lookup.{or_else, lookup_well_known_lem}

-- A parser for the tests, which knows one URL.
abbrev sample_parse : Str → Option RepoUrl
sample_parse s = some (record {
  scheme = codes "https";
  has_password = false;
  hostname = codes "GitHub.com";
  path = codes "/Acme/billing.git";
})

abbrev billing : RepoRef
billing = record {
  provider = codes "github";
  git_host = codes "github.com";
  owner = codes "Acme";
  name = codes "billing";
  subpath = codes "svc/api";
  ref = codes "v2";
}

url_test :
    parse_repo_ref sample_parse (codes " https://GitHub.com/Acme/billing.git//svc/api@v2 ")
    ≡ ok billing
unfolding parse_repo_ref
url_test = refl

browse_test :
    (parse_repo_ref sample_parse (codes "git@github.com:Acme/billing.git/tree/v2/svc/api")
      ≡ ok billing)
    × (parse_repo_ref sample_parse (codes "Acme/billing//svc/./api#v2") ≡ ok billing)
    × (parse_repo_ref sample_parse (codes "gh:Acme") ≡ fail no_repository)
    × (parse_repo_ref sample_parse (codes "a/b//../c") ≡ fail bad_subpath)
    × (parse_repo_ref sample_parse (codes "FILE://x") ≡ fail local_path)
unfolding parse_repo_ref
browse_test = (refl, refl, refl, refl, refl)

-- A colon before the `@` and none behind it: the slice of the scp-style branch is out of bounds.
colon_crashes : parse_repo_ref sample_parse (codes "gh:Acme@v2/x") ≡ fail crash
unfolding parse_repo_ref
colon_crashes = refl

abbrev entry : Str → Str → WellKnown
entry host vendor = record {
  host = host;
  vendor = vendor;
  repo = codes "stripe/openapi";
  role = spec_only;
}

abbrev sample_table : List WellKnown
sample_table =
    entry (codes "*.stripe.com") (codes "any")
    ∷ entry (codes "api.stripe.com") (codes "Stripe")
    ∷ []

lookup-test :
    (lookup_well_known sample_table (codes "API.stripe.com ")
      ≡ some (entry (codes "api.stripe.com") (codes "Stripe")))
    × (lookup_well_known sample_table (codes "files.stripe.com")
        ≡ some (entry (codes "*.stripe.com") (codes "any")))
unfolding lookup_well_known
lookup-test = (refl, refl)

lookup_well_known_lem_example :
    lookup_well_known sample_table (codes "api.stripe.com")
    ≡ or_else
        (find_first (is_exact (to_lower (trim_space (codes "api.stripe.com")))) sample_table)
        (find_first (is_wildcard (to_lower (trim_space (codes "api.stripe.com")))) sample_table)
lookup_well_known_lem_example = lookup_well_known_lem sample_table (codes "api.stripe.com")

host_label-test :
    (host_label (codes "api.acme.com") ≡ codes "acme")
    × (host_label (codes "acme.io") ≡ codes "acme")
unfolding host_label
host_label-test = (refl, refl)
