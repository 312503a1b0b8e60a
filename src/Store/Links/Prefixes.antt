-- ===== src/Store/Links/Prefixes.antt =====
-- The most specific link of an endpoint comes first.
use api_integrity_tool.Base.{
  ◌<◌, ◌≡◌, refl, Bool, true, false, ◌||◌, List, [], ◌∷◌, arith, keep, All, length, ltb, Str,
  is_empty, str_eq, str_lt, has_prefix, str_eq_iff, IsSortedBy, IsSortedBy-keep, sort_by,
  All-keep-test, All-keep, sort_by-IsSortedBy, Laws, Laws-by_key, Laws-key, flip-IsOrder,
  str-IsOrder, int-IsOrder, Always,
}
use api_integrity_tool.Model.Repo.{Upstream, key, matches}
use api_integrity_tool.Store.State.{State, upstream_less, normalize}
use api_integrity_tool.Store.Links.{upstreams_for_host, upstreams_for_endpoint}

pub upstream_less-Laws : Laws Always upstream_less
unfolding upstream_less
upstream_less-Laws =
    Laws-by_key str-IsOrder (λ u. u.host) (λ a p. tt)
      (Laws-by_key (flip-IsOrder _ _ str-IsOrder) (λ u. u.path_prefix) (λ a p. tt)
        (Laws-by_key int-IsOrder (λ u. u.priority) (λ a p. tt)
          (Laws-key str-IsOrder (λ u. key u.repo) (λ a p. tt))))

-- Of two prefixes of one path the shorter is the smaller text.
prefix_order :
    (path p q : Str)
    → has_prefix path p ≡ true
    → has_prefix path q ≡ true
    → length p < length q
    → str_lt p q ≡ true
unfolding has_prefix str_lt
prefix_order path [] [] hp hq h = absurd (omega arith)
prefix_order path [] (b ∷ q) hp hq h = refl
prefix_order path (a ∷ p) [] hp hq h = absurd (omega arith)
prefix_order [] (a ∷ p) (b ∷ q) hp hq h = cc
prefix_order (c ∷ path) (a ∷ p) (b ∷ q) hp hq h = ground (arith, prefix_order path p q)

abbrev pub Covers : Str → Str → Upstream → Type 0
Covers host path u = (str_eq u.host host ≡ true) × (matches u path ≡ true)

has_prefix-nil : (s : Str) → has_prefix s [] ≡ true
unfolding has_prefix
has_prefix-nil [] = refl
has_prefix-nil (c ∷ s) = refl

matches→has_prefix :
    (u : Upstream) (path : Str) → matches u path ≡ true → has_prefix path u.path_prefix ≡ true
unfolding matches
matches→has_prefix u path h = by_prefix u.path_prefix h
  where
    by_prefix : (p : Str) → (is_empty p || has_prefix path p) ≡ true → has_prefix path p ≡ true
    by_prefix [] e = has_prefix-nil path
    by_prefix (c ∷ p) e = e

no_longer :
    (host path : Str) (u v : Upstream)
    → Covers host path u
    → Covers host path v
    → upstream_less v u ≡ false
    → ltb (length u.path_prefix) (length v.path_prefix) ≡ false
unfolding upstream_less
no_longer host path u v cu cv h = ground (
  arith,
  matches→has_prefix u path,
  matches→has_prefix v path,
  prefix_order path u.path_prefix v.path_prefix,
  str_eq_iff u.host host,
  str_eq_iff v.host host,
  str_eq_iff v.host u.host,
  str_eq_iff v.path_prefix u.path_prefix,
)

-- The links of the list come longest prefix first.
abbrev pub LongestFirst : List Upstream → Type 0
LongestFirst = IsSortedBy (λ v u. ltb (length u.path_prefix) (length v.path_prefix))

LongestFirst-tail :
    (host path : Str) (u : Upstream) (us : List Upstream)
    → Covers host path u
    → All (Covers host path) us
    → All (λ v. upstream_less v u ≡ false) us
    → All (λ v. ltb (length u.path_prefix) (length v.path_prefix) ≡ false) us
LongestFirst-tail host path u [] cu c h = tt
LongestFirst-tail host path u (v ∷ vs) cu c h =
    (no_longer host path u v cu c.0 h.0, LongestFirst-tail host path u vs cu c.1 h.1)

IsSortedBy-LongestFirst :
    (host path : Str) (us : List Upstream)
    → All (Covers host path) us
    → IsSortedBy upstream_less us
    → LongestFirst us
IsSortedBy-LongestFirst host path [] c h = tt
IsSortedBy-LongestFirst host path (u ∷ us) c h =
    (LongestFirst-tail host path u us c.0 c.1 h.0, IsSortedBy-LongestFirst host path us c.1 h.1)

All-Covers :
    (host path : Str) (us : List Upstream)
    → All (λ u. str_eq u.host host ≡ true) us
    → All (λ u. matches u path ≡ true) us
    → All (Covers host path) us
All-Covers host path [] h m = tt
All-Covers host path (u ∷ us) h m = ((h.0, m.0), All-Covers host path us h.1 m.1)

All-Always : (us : List Upstream) → All Always us
All-Always [] = tt
All-Always (u ∷ us) = (tt, All-Always us)

-- In every state that the store writes, the links of an endpoint all cover its host and path, and
-- the one with the longest path prefix comes first.
pub upstreams_for_endpoint-LongestFirst :
    (st : State) (host path : Str)
    → All (Covers host path) (upstreams_for_endpoint (normalize st) host path)
      × LongestFirst (upstreams_for_endpoint (normalize st) host path)
unfolding upstreams_for_endpoint upstreams_for_host normalize
upstreams_for_endpoint-LongestFirst st host path = (
  covered,
  IsSortedBy-LongestFirst host path _ covered (
      IsSortedBy-keep _ covers_path on_host (
        IsSortedBy-keep _ covers_host (sort_by upstream_less st.upstreams) (
          sort_by-IsSortedBy upstream_less upstream_less-Laws st.upstreams
            (All-Always st.upstreams)))),
)
  where
    covers_path : Upstream → Bool
    covers_path u = matches u path

    covers_host : Upstream → Bool
    covers_host u = str_eq u.host host

    on_host : List Upstream
    on_host = keep covers_host (sort_by upstream_less st.upstreams)

    covered : All (Covers host path) (keep covers_path on_host)
    covered =
        All-Covers host path _
          (All-keep _ covers_path on_host
            (All-keep-test covers_host (sort_by upstream_less st.upstreams)))
          (All-keep-test covers_path on_host)
