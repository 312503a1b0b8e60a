-- ===== src/Normalize/Canonical.antt =====
-- Canonicalize of internal/normalize/url.go. The parser url.Parse is a parameter.
pub mod Plain
pub mod Cut
use api_integrity_tool.Base.{
  ℕ, Bool, true, false, not, ◌&&◌, ◌||◌, Option, none, some, List, [], ◌∷◌, ◌++◌, if◌then◌else◌,
  ◌==◌, any, Str, codes, has_prefix, is_empty, before_any, to_lower, ℤ, pos,
}
use api_integrity_tool.Normalize.Path.{append_flag}
use api_integrity_tool.Normalize.Ids.{PathVar, Options}
use api_integrity_tool.Normalize.Segments.{
  Segment, literal, hole, trim_empty, mask, unmask_to_segments,
}
use api_integrity_tool.Normalize.Build.{Built, build_path, query_keys}
use api_integrity_tool.Normalize.Host.{
  HostKind, unknown_host, unknown, relative, literal_host, symbolic_name, classify_host,
}
use api_integrity_tool.Normalize.Port.{split_host_port, normalize_port}

pub record Canonical : Type 0 where
  pub scheme : Str
  pub host : Str
  pub host_kind : HostKind
  pub port : ℤ
  pub path : Str
  pub path_vars : List PathVar
  pub query_keys : List Str
  pub trailing_slash : Bool
  pub flags : List Str

-- What the code reads of a parsed URL.
pub record Url : Type 0 where
  pub scheme : Str
  pub has_user : Bool
  pub host : Str
  pub escaped_path : Str
  pub raw_query : Str

unfoldable pub with_path : Str → HostKind → Built → Canonical
with_path host kind b = record {
  scheme = [];
  host = host;
  host_kind = kind;
  port = pos 0;
  path = b.path;
  path_vars = b.vars;
  query_keys = b.query_keys;
  trailing_slash = b.trailing;
  flags = b.flags;
}

-- A URL whose host is not known: its path is kept.
unfoldable pub best_effort : List Segment → Options → List Str → Canonical
unfolding with_path build_path
best_effort segs opts flags = with_path unknown_host unknown (build_path segs opts flags)

-- The branch of a path with no host.
unfoldable pub relative_call : List Segment → Options → Canonical
unfolding with_path build_path append_flag
relative_call segs opts =
    if is_empty opts.default_host
    then with_path (codes "self") relative (build_path segs opts [])
    else with_path opts.default_host literal_host
        (build_path segs opts (append_flag [] (codes "default_host_applied")))

-- looksHostFirst
unfoldable pub looks_host_first : Str → Bool
unfolding before_any
looks_host_first s =
    any (λ c. c == b'.') (before_any (λ c. c == b'/' || (c == b'?' || c == b'#')) s)

-- What is done with a parsed URL that has a host.
unfoldable pub from_url : Url → List Segment → Options → List Str → Canonical
unfolding to_lower append_flag split_host_port normalize_port classify_host unmask_to_segments
    build_path query_keys
from_url u holes opts flags =
    let scheme = to_lower u.scheme in
    let credentials =
      if u.has_user then append_flag flags (codes "embedded_credentials") else flags in
    let at = split_host_port u.host in
    let port = normalize_port scheme at.1 credentials in
    let host = classify_host at.0 holes port.1 in
    let b = build_path (unmask_to_segments u.escaped_path holes) opts host.2 in
    record {
      scheme = scheme;
      host = host.0;
      host_kind = host.1;
      port = port.0;
      path = b.path;
      path_vars = b.vars;
      query_keys = query_keys u.raw_query;
      trailing_slash = b.trailing;
      flags = b.flags;
    }

module _ (parse : Str → Option Url) where
  -- A masked text that url.Parse reads as a path: it is read again behind "//".
  unfoldable pub without_scheme : Str → List Segment → List Segment → Options → Canonical
  unfolding best_effort from_url append_flag
  without_scheme masked holes segs opts = elim (parse (codes "//" ++ masked)) [
    | none ↦ best_effort segs opts []
    | some u ↦
        if is_empty u.host
        then best_effort segs opts []
        else from_url u holes opts (append_flag [] (codes "scheme_relative"))
  ]

  -- The URL of a literal head that begins with no slash.
  unfoldable pub absolute : List Segment → Options → Canonical
  unfolding mask best_effort from_url without_scheme looks_host_first append_flag
  absolute segs opts =
      let masked = (mask segs).0 in
      let holes = (mask segs).1 in
      elim (parse masked) [
        | none ↦ best_effort segs opts (append_flag [] (codes "unparseable"))
        | some u ↦
            if not (is_empty u.host)
            then from_url u holes opts []
            else if not (looks_host_first masked)
            then best_effort segs opts []
            else without_scheme masked holes segs opts
      ]

  -- Canonicalize of segments that are not empty. The case of "//" stands behind the one of "/", which
  -- takes it, so it has no branch here.
  unfoldable pub canonicalize_trimmed : List Segment → Options → Canonical
  unfolding with_path build_path symbolic_name relative_call absolute has_prefix
  canonicalize_trimmed [] opts = record {
    scheme = [];
    host = unknown_host;
    host_kind = unknown;
    port = pos 0;
    path = codes "/";
    path_vars = [];
    query_keys = [];
    trailing_slash = false;
    flags = [];
  }
  canonicalize_trimmed (hole sym name src ∷ rest) opts =
      with_path (symbolic_name sym).0 (symbolic_name sym).1 (build_path rest opts [])
  canonicalize_trimmed (literal head ∷ rest) opts =
      if has_prefix head (codes "/")
      then relative_call (literal head ∷ rest) opts
      else absolute (literal head ∷ rest) opts

  -- Canonicalize
  unfoldable pub canonicalize : List Segment → Options → Canonical
  unfolding trim_empty canonicalize_trimmed
  canonicalize segs opts = canonicalize_trimmed (trim_empty segs) opts
