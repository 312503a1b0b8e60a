-- ===== src/Normalize/Tests.antt =====
-- The theorems on canonical URLs at concrete texts, and tests of the functions.
use api_integrity_tool.Base.{
  ◌≡◌, ◌≢◌, refl, arith, any, ◌&&◌, ◌++◌, ◌∷◌, List, join, str_eq, true, false, Option, some, [],
  All, Str, codes, contains, split, str_lt, IsSortedBy, pos,
}
use api_integrity_tool.Normalize.Squeeze.{squeeze, single, squeeze_lem}
use api_integrity_tool.Normalize.Path.{clean_path, path_clean_keep_root}
use api_integrity_tool.Normalize.Path.Clean.{IsPath, clean_path-IsPath}
use api_integrity_tool.Normalize.Path.Steps.{IsStep}
use api_integrity_tool.Normalize.Path.Dots.{path_clean_keep_root_lem}
use api_integrity_tool.Normalize.Token.{to_snake, last_ident}
use api_integrity_tool.Normalize.Token.Snake.{IsTokenChar, to_snake_lem}
use api_integrity_tool.Normalize.Ids.{Options, is_uuid}
use api_integrity_tool.Normalize.Segments.{literal, hole, mask, unmask_to_segments}
use api_integrity_tool.Normalize.Build.{build_path, query_keys}
use api_integrity_tool.Normalize.Build.Keys.{is_among, is_usable, key_of, query_keys_lem}
use api_integrity_tool.Normalize.Port.{split_host_port}
use api_integrity_tool.Normalize.Canonical.{Url, canonicalize}
use api_integrity_tool.Normalize.Canonical.Plain.{HasNoValues, canonicalize-HasNoValues}
use api_integrity_tool.Normalize.Canonical.Cut.{KeepsKeys}

abbrev options : Options
options = record { collapse_numeric_ids = false; default_host = [] }

squeeze_lem_example :
    (squeeze b'/' (codes "/a///b//") ≡ single b'/' false (codes "/a///b//"))
    × (contains (squeeze b'/' (codes "/a///b//")) (codes "//") ≡ false)
squeeze_lem_example = squeeze_lem b'/' (codes "/a///b//")

clean_path-IsPath_example : IsPath (clean_path (codes "a//b/../c%2f/") false []).0
clean_path-IsPath_example = clean_path-IsPath (codes "a//b/../c%2f/") false []

clean_path-test :
    clean_path (codes "a//b/../c%2f/") false []
    ≡ (codes "/a/c%2F", true, codes "dot_segments_resolved" ∷ [])
unfolding clean_path
clean_path-test = refl

x_IsStep : IsStep (codes "x")
x_IsStep = (((λ e. cc), ((λ e. omega (arith, e)), tt)), (λ e. cc), λ e. cc)

path_clean_keep_root_lem_example :
    (path_clean_keep_root (codes "/a" ++ b'/' ∷ (codes "x" ++ (codes "/../" ++ codes "../b")))
      ≡ path_clean_keep_root (codes "/a" ++ b'/' ∷ codes "../b"))
    × (path_clean_keep_root (codes "/a" ++ b'/' ∷ (codes "./" ++ codes "../b"))
        ≡ path_clean_keep_root (codes "/a" ++ b'/' ∷ codes "../b"))
    × (path_clean_keep_root (codes "/../" ++ codes "../b")
        ≡ path_clean_keep_root (b'/' ∷ codes "../b"))
    × ((ws : List Str)
        → All IsStep ws
        → path_clean_keep_root (b'/' ∷ join (codes "/") ws) ≡ b'/' ∷ join (codes "/") ws)
    × All (λ s. (s ≢ codes ".") × (s ≢ codes "..")) (split b'/' (path_clean_keep_root (codes "/a")))
path_clean_keep_root_lem_example =
    path_clean_keep_root_lem (codes "/a") (codes "../b") (codes "x") x_IsStep

to_snake-test :
    (to_snake (codes "userID") ≡ codes "user_id")
    × (to_snake (codes "HTTPHost") ≡ codes "http_host")
    × (to_snake (codes "id_str") ≡ codes "id")
    × (to_snake (codes "--") ≡ codes "expr")
unfolding to_snake
to_snake-test = (refl, refl, refl, refl)

to_snake_lem_example : (to_snake (codes "a/b?c") ≢ []) × All IsTokenChar (to_snake (codes "a/b?c"))
to_snake_lem_example = to_snake_lem (codes "a/b?c") (omega arith)

last_ident-test : last_ident (codes "user.getID()") ≡ codes "getID"
unfolding last_ident
last_ident-test = refl

query_keys-test : query_keys (codes "b=2&a=1&&b=3&=4") ≡ codes "a" ∷ codes "b" ∷ []
unfolding query_keys
query_keys-test = refl

query_keys_lem_example :
    (is_among (codes "a") (query_keys (codes "b=2& a =1")) ≡ (
      is_usable (codes "a")
      && any (λ kv. str_eq (key_of kv) (codes "a")) (split b'&' (codes "b=2& a =1"))))
    × IsSortedBy str_lt (query_keys (codes "b=2& a =1"))
query_keys_lem_example = query_keys_lem (codes "b=2& a =1") (codes "a")

is_uuid-test : is_uuid (codes "3fa85f64-5717-4562-b3fc-2c963f66afa6") ≡ true
unfolding is_uuid
is_uuid-test = refl

split_host_port-test :
    (split_host_port (codes "api.example.com:8443") ≡ (codes "api.example.com", pos 8443))
    × (split_host_port (codes "[::1]:80") ≡ (codes "[::1]", pos 80))
unfolding split_host_port
split_host_port-test = (refl, refl)

build_path-test :
    (build_path
      (literal (codes "/users/") ∷ hole [] (codes "userID") [] ∷ literal (codes "/x?k=v") ∷ [])
      options
      []).path
    ≡ codes "/users/{user_id}/x"
unfolding build_path
build_path-test = refl

-- A hole with a literal behind it that begins with a digit: the sentinel swallows the digit, and the hole
-- is lost.
sentinel_swallows :
    unmask_to_segments
      (mask (hole [] (codes "v") [] ∷ literal (codes "2/x") ∷ [])).0
      (mask (hole [] (codes "v") [] ∷ literal (codes "2/x") ∷ [])).1
    ≡ hole [] [] [] ∷ literal (codes "/x") ∷ []
unfolding unmask_to_segments mask
sentinel_swallows = refl

-- A parser for the tests: every text is a path of the host "h".
abbrev sample_parse : Str → Option Url
sample_parse s = some (record {
  scheme = codes "https";
  has_user = false;
  host = codes "h";
  escaped_path = s;
  raw_query = codes "a=secret";
})

-- A URL with no scheme is taken for a path of this site.
scheme_relative :
    (canonicalize sample_parse (literal (codes "//cdn.example.com/x") ∷ []) options).host
    ≡ codes "self"
unfolding canonicalize
scheme_relative = refl

canonicalize-HasNoValues_example :
    HasNoValues (canonicalize sample_parse (literal (codes "h/x?a=secret") ∷ []) options)
    × KeepsKeys b'?'
        (codes "a=secret#top")
        (canonicalize sample_parse
          (literal (b'/' ∷ (codes "x" ++ b'?' ∷ codes "a=secret#top"))
            ∷ literal (codes "h/x?a=secret")
            ∷ [])
          options)
        (canonicalize sample_parse (literal (b'/' ∷ codes "x") ∷ []) options)
canonicalize-HasNoValues_example =
    canonicalize-HasNoValues sample_parse (literal (codes "h/x?a=secret") ∷ []) options (codes "x")
      (codes "a=secret#top") b'?' (refl, tt) refl
