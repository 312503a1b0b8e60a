-- ===== src/Normalize/Canonical/Plain.antt =====
-- What a canonical URL of internal/normalize/url.go keeps of the text it was made of.
use api_integrity_tool.Base.{
  ℕ, ◌≡◌, true, refl, not, Option, List, [], ◌∷◌, ◌++◌, if◌then◌else◌, All, Str, codes, has_prefix,
  is_empty, Bool-cases, Option-cases, inl, inr, from_any, to_lower,
}
use api_integrity_tool.Normalize.Path.{append_flag}
use api_integrity_tool.Normalize.Ids.{Options}
use api_integrity_tool.Normalize.Segments.{
  Segment, literal, hole, trim_empty, mask, unmask_to_segments,
}
use api_integrity_tool.Normalize.Build.{split_query, build_path, raw_query, is_query}
use api_integrity_tool.Normalize.Build.Cleaned.{IsPlain}
use api_integrity_tool.Normalize.Build.Plain.{build_path-IsPlain}
use api_integrity_tool.Normalize.Build.Keys.{IsKey, query_keys-All}
use api_integrity_tool.Normalize.Canonical.Cut.{IsPlainText, KeepsKeys, relative_call-KeepsKeys}
use api_integrity_tool.Normalize.Host.{
  HostKind, unknown_host, unknown, relative, literal_host, symbolic_name, classify_host,
}
use api_integrity_tool.Normalize.Port.{split_host_port, normalize_port}
use api_integrity_tool.Normalize.Canonical.{
  Canonical, Url, with_path, best_effort, relative_call, looks_host_first, from_url, without_scheme,
  absolute, canonicalize_trimmed, canonicalize,
}

-- The path has no query and no fragment, and the keys have no values.
abbrev pub HasNoValues : Canonical → Type 0
HasNoValues c = All IsPlain c.path × All IsKey c.query_keys

split_query-keys : (segs : List Segment) → All IsKey (split_query segs).1
unfolding split_query
split_query-keys [] = tt
split_query-keys (hole sym name src ∷ segs) = split_query-keys segs
split_query-keys (literal s ∷ segs) = elim (Bool-cases (is_empty (from_any is_query s))) [
  | inl e ↦ rw e (split_query-keys segs)
  | inr e ↦ rw e (query_keys-All (raw_query (from_any is_query s)))
]

with_path-HasNoValues :
    (host : Str) (kind : HostKind) (segs : List Segment) (opts : Options) (flags : List Str)
    → HasNoValues (with_path host kind (build_path segs opts flags))
unfolding with_path build_path
with_path-HasNoValues host kind segs opts flags =
    (build_path-IsPlain segs opts flags, split_query-keys segs)

best_effort-HasNoValues :
    (segs : List Segment) (opts : Options) (flags : List Str)
    → HasNoValues (best_effort segs opts flags)
unfolding best_effort
best_effort-HasNoValues = with_path-HasNoValues unknown_host unknown

relative_call-HasNoValues :
    (segs : List Segment) (opts : Options) → HasNoValues (relative_call segs opts)
unfolding relative_call
relative_call-HasNoValues segs opts = elim (Bool-cases (is_empty opts.default_host)) [
  | inl e ↦ rw e (with_path-HasNoValues (codes "self") relative segs opts [])
  | inr e ↦ rw e (
      with_path-HasNoValues opts.default_host literal_host segs opts
        (append_flag [] (codes "default_host_applied")))
]

from_url-HasNoValues :
    (u : Url) (holes : List Segment) (opts : Options) (flags : List Str)
    → HasNoValues (from_url u holes opts flags)
unfolding from_url
from_url-HasNoValues u holes opts flags =
    let flagged = if u.has_user then append_flag flags (codes "embedded_credentials") else flags in
    let at = split_host_port u.host in
    let port = normalize_port (to_lower u.scheme) at.1 flagged in
    (
      build_path-IsPlain (unmask_to_segments u.escaped_path holes) opts
          (classify_host at.0 holes port.1).2,
      query_keys-All u.raw_query,
    )

module _ (parse : Str → Option Url) where
  without_scheme-HasNoValues :
      (masked : Str) (holes segs : List Segment) (opts : Options)
      → HasNoValues (without_scheme parse masked holes segs opts)
  unfolding without_scheme
  without_scheme-HasNoValues masked holes segs opts =
      elim (Option-cases (parse (codes "//" ++ masked))) [
        | inl e ↦ rw (e, without_scheme) (best_effort-HasNoValues segs opts [])
        | inr (u, e) ↦ elim (Bool-cases (is_empty u.host)) [
          | inl f ↦ rw (e, f, without_scheme) (best_effort-HasNoValues segs opts [])
          | inr f ↦
              rw (e, f, without_scheme)
                (from_url-HasNoValues u holes opts (append_flag [] (codes "scheme_relative")))
        ]
      ]

  absolute-HasNoValues :
      (segs : List Segment) (opts : Options) → HasNoValues (absolute parse segs opts)
  unfolding absolute
  absolute-HasNoValues segs opts = elim (Option-cases (parse (mask segs).0)) [
    | inl e ↦
        rw (e, absolute) (best_effort-HasNoValues segs opts (append_flag [] (codes "unparseable")))
    | inr (u, e) ↦ elim (Bool-cases (not (is_empty u.host))) [
      | inl f ↦ rw (e, f, absolute) (from_url-HasNoValues u (mask segs).1 opts [])
      | inr f ↦ elim (Bool-cases (not (looks_host_first (mask segs).0))) [
        | inl g ↦ rw (e, f, g, absolute) (best_effort-HasNoValues segs opts [])
        | inr g ↦
            rw (e, f, g, absolute)
              (without_scheme-HasNoValues (mask segs).0 (mask segs).1 segs opts)
      ]
    ]
  ]

  trimmed-HasNoValues :
      (segs : List Segment) (opts : Options) → HasNoValues (canonicalize_trimmed parse segs opts)
  unfolding canonicalize_trimmed
  trimmed-HasNoValues [] opts = ((refl, tt), tt)
  trimmed-HasNoValues (hole sym name src ∷ rest) opts =
      with_path-HasNoValues (symbolic_name sym).0 (symbolic_name sym).1 rest opts []
  trimmed-HasNoValues (literal head ∷ rest) opts = elim (Bool-cases (has_prefix head (codes "/"))) [
    | inl e ↦ rw e (relative_call-HasNoValues (literal head ∷ rest) opts)
    | inr e ↦ rw e (absolute-HasNoValues (literal head ∷ rest) opts)
  ]

  -- For every parser of URLs, and whatever the segments are, the path of the canonical URL has neither a
  -- `?` nor a `#`, and none of its query keys is empty, holds an `=`, an `&` or the sentinel of a hole.
  -- And when the text of a relative call has a query or a fragment, all that the canonical URL keeps of
  -- it, and of what follows, are the keys of the query: the texts before the first equals sign of its
  -- parts, up to a fragment; all else is as for the path alone.
  pub canonicalize-HasNoValues :
      (segs : List Segment) (opts : Options) (p q : Str) (c : ℕ)
      → IsPlainText p
      → is_query c ≡ true
      → HasNoValues (canonicalize parse segs opts)
        × KeepsKeys c q
            (canonicalize parse (literal (b'/' ∷ (p ++ c ∷ q)) ∷ segs) opts)
            (canonicalize parse (literal (b'/' ∷ p) ∷ []) opts)
  unfolding canonicalize trim_empty canonicalize_trimmed has_prefix
  canonicalize-HasNoValues segs opts p q c h e = (
    trimmed-HasNoValues (trim_empty segs) opts,
    relative_call-KeepsKeys p q c (trim_empty segs) opts h e,
  )
