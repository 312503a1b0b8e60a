-- ===== src/Normalize/Canonical/Cut.antt =====
-- A relative call of internal/normalize/url.go: what it keeps of its text behind the first `?` or `#`.
use api_integrity_tool.Base.{
  ℕ, ◌≡◌, refl, ap, ◌&&◌, true, false, if◌then◌else◌, List, [], ◌∷◌, ◌++◌, ◌==◌, All, any, Str,
  str_eq, is_empty, split, before_any, from_any, Bool-cases, inl, inr,
}
use api_integrity_tool.Normalize.Ids.{Options}
use api_integrity_tool.Normalize.Segments.{Segment, literal}
use api_integrity_tool.Normalize.Build.{split_query, build_path, query_keys, raw_query, is_query}
use api_integrity_tool.Normalize.Build.Keys.{is_among, is_usable, key_of, query_keys_lem}
use api_integrity_tool.Normalize.Canonical.{Canonical, with_path, relative_call}

-- A text without a query and a fragment.
abbrev pub IsPlainText : Str → Type 0
IsPlainText = All (λ c. is_query c ≡ false)

-- The query of a text that ends its path with the byte `c`.
abbrev pub query_of : ℕ → Str → Str
query_of c q = if c == b'?' then before_any (λ d. d == b'#') q else []

from_any-cut :
    (p q : Str) (c : ℕ) → IsPlainText p → is_query c ≡ true → from_any is_query (p ++ c ∷ q) ≡ c ∷ q
unfolding from_any
from_any-cut [] q c h e = rw e refl
from_any-cut (x ∷ p) q c h e = rw h.0 (from_any-cut p q c h.1 e)

before_any-cut :
    (p q : Str) (c : ℕ) → IsPlainText p → is_query c ≡ true → before_any is_query (p ++ c ∷ q) ≡ p
unfolding before_any
before_any-cut [] q c h e = rw e refl
before_any-cut (x ∷ p) q c h e = rw h.0 (ap (λ s. x ∷ s) (before_any-cut p q c h.1 e))

from_any-plain : (p : Str) → IsPlainText p → from_any is_query p ≡ []
unfolding from_any
from_any-plain [] h = refl
from_any-plain (x ∷ p) h = rw h.0 (from_any-plain p h.1)

split_query-cut :
    (p q : Str) (c : ℕ) (post : List Segment)
    → IsPlainText p
    → is_query c ≡ true
    → split_query (literal (b'/' ∷ (p ++ c ∷ q)) ∷ post)
      ≡ (literal (b'/' ∷ p) ∷ [], query_keys (raw_query (c ∷ q)))
unfolding split_query before_any from_any
split_query-cut p q c post h e = rw (from_any-cut p q c h e, before_any-cut p q c h e) refl

split_query-plain :
    (p : Str)
    → IsPlainText p
    → split_query (literal (b'/' ∷ p) ∷ []) ≡ (literal (b'/' ∷ p) ∷ [], [])
unfolding split_query from_any
split_query-plain p h = rw (from_any-plain p h) refl

-- Of a relative call only the keys of the query are left, and the rest is that of its path.
abbrev pub KeepsKeys : ℕ → Str → Canonical → Canonical → Type 0
KeepsKeys c q with_query without =
    (record with_query { query_keys = [] } ≡ without)
    × ((k : Str)
        → is_among k with_query.query_keys
          ≡ (is_usable k && any (λ kv. str_eq (key_of kv) k) (split b'&' (query_of c q))))

pub relative_call-KeepsKeys :
    (p q : Str) (c : ℕ) (post : List Segment) (opts : Options)
    → IsPlainText p
    → is_query c ≡ true
    → KeepsKeys c q
        (relative_call (literal (b'/' ∷ (p ++ c ∷ q)) ∷ post) opts)
        (relative_call (literal (b'/' ∷ p) ∷ []) opts)
unfolding relative_call with_path build_path raw_query
relative_call-KeepsKeys p q c post opts h e = elim (Bool-cases (is_empty opts.default_host)) [
  | inl f ↦
      rw (f, split_query-cut p q c post h e, split_query-plain p h)
        (refl, λ k. (query_keys_lem (query_of c q) k).0)
  | inr f ↦
      rw (f, split_query-cut p q c post h e, split_query-plain p h)
        (refl, λ k. (query_keys_lem (query_of c q) k).0)
]
