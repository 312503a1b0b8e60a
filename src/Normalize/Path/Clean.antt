-- ===== src/Normalize/Path/Clean.antt =====
-- The paths that cleanPath makes.
use mathlib.Core.List.{append-nil}
use api_integrity_tool.Base.{
  ℕ, ◌≡◌, ◌≢◌, ◌⊎◌, refl, ap, sym, ◌∙◌, subst, Bool, true, false, not, ◌&&◌, List, [], ◌∷◌, ◌++◌,
  ◌==◌, ltb, length, length-append, All, Str, codes, str_eq, contains, has_prefix, has_suffix,
  trim_suffix, join, split, drop_first, snoc-cases, has_suffix-snoc, trim_suffix-snoc,
  has_suffix-append, has_suffix-lacks, All-split, arith, Bool-cases, inl, inr,
}
use api_integrity_tool.Normalize.Path.{
  upper_percent_escapes, rooted, resolve_dots, path_clean_keep_root, without_dots, trim_slash,
  clean_path, has_dots,
}
use api_integrity_tool.Normalize.Path.Steps.{IsPiece, resolve_dots-All, All-IsPiece}
use api_integrity_tool.Normalize.Squeeze.{squeeze, double-IsSingle, squeeze_lem}
use api_integrity_tool.Normalize.Squeeze

-- No two slashes stand in a row.
abbrev pub IsSingle : Str → Type 0
IsSingle = Squeeze.IsSingle b'/'

-- It begins with a slash, has no two slashes in a row, and ends with a slash only if it is the root.
abbrev IsTidy : Str → Type 0
IsTidy p =
    (has_prefix p (codes "/") ≡ true)
    × IsSingle p
    × (has_suffix p (codes "/") ≡ true → p ≡ codes "/")

rooted-starts : (p : Str) → has_prefix (rooted p) (codes "/") ≡ true
unfolding rooted has_prefix
rooted-starts p = ground (arith, Bool-cases (has_prefix p (codes "/")))

rooted-IsSingle : (p : Str) → IsSingle p → IsSingle (rooted p)
unfolding rooted has_prefix
rooted-IsSingle [] h = tt
rooted-IsSingle (c ∷ p) h = elim (Bool-cases (c == b'/')) [
  | inl e ↦ rw e h
  | inr e ↦ rw e (ground (arith, e), h)
]

IsSingle-init : (t : Str) (c : ℕ) → IsSingle (t ++ c ∷ []) → IsSingle t
IsSingle-init [] c h = tt
IsSingle-init (d ∷ []) c h = tt
IsSingle-init (d ∷ e ∷ t) c h = (h.0, IsSingle-init (e ∷ t) c h.1)

IsSingle-last : (t : Str) (c d : ℕ) → IsSingle ((t ++ c ∷ []) ++ d ∷ []) → c ≡ b'/' → d ≢ b'/'
IsSingle-last [] c d h = h.0
IsSingle-last (e ∷ []) c d h = h.1.0
IsSingle-last (e ∷ f ∷ t) c d h = IsSingle-last (f ∷ t) c d h.1

not-suffix : (t : Str) → IsSingle (t ++ b'/' ∷ []) → t ≢ [] → has_suffix t (codes "/") ≡ false
not-suffix t h k = elim (snoc-cases t) [
  | inl e ↦ absurd (k e)
  | inr (u, c, e) ↦
      let single = subst (λ (r : Str). IsSingle (r ++ b'/' ∷ [])) e h in
      rw e (has_suffix-snoc u c b'/' ∙ ground (arith, IsSingle-last u c b'/' single))
]

word-IsSingle : (w rest : Str) → All (λ c. c ≢ b'/') w → IsSingle rest → IsSingle (w ++ rest)
word-IsSingle [] rest h k = k
word-IsSingle (c ∷ []) [] h k = tt
word-IsSingle (c ∷ []) (d ∷ rest) h k = ((λ e. absurd (h.0 e)), k)
word-IsSingle (c ∷ d ∷ w) rest h k = ((λ e. absurd (h.0 e)), word-IsSingle (d ∷ w) rest h.1 k)

piece-IsSingle : (w rest : Str) → IsPiece w → IsSingle rest → IsSingle (b'/' ∷ (w ++ rest))
piece-IsSingle [] rest h k = absurd (h.0 refl)
piece-IsSingle (c ∷ w) rest h k = ((λ _. h.1.0), word-IsSingle (c ∷ w) rest h.1 k)

slash-append : (ws : List Str) → b'/' ∷ join (codes "/") ws ≢ []
slash-append ws e = cc

join-ne : (w : Str) (ws : List Str) → w ≢ [] → join (codes "/") (w ∷ ws) ≢ []
unfolding join
join-ne [] ws h e = h refl
join-ne (c ∷ w) [] h e = cc
join-ne (c ∷ w) (v ∷ ws) h e = cc

-- The path of some segments.
pieces-IsTidy : (ws : List Str) → All IsPiece ws → IsTidy (b'/' ∷ join (codes "/") ws)
unfolding join has_prefix
pieces-IsTidy [] h = (refl, tt, λ _. refl)
pieces-IsTidy (w ∷ []) h = (
  refl,
  subst (λ (r : Str). IsSingle (b'/' ∷ r)) (append-nil w) (piece-IsSingle w [] h.0 tt),
  λ e. cc (e, has_suffix-append (b'/' ∷ []) w b'/' h.0.0, has_suffix-lacks w b'/' h.0.1),
)
pieces-IsTidy (w ∷ v ∷ ws) h =
    let ih = pieces-IsTidy (v ∷ ws) h.1 in
    let rest = b'/' ∷ join (codes "/") (v ∷ ws) in
    (
      refl,
      piece-IsSingle w rest h.0 ih.1,
      λ e.
          let f = sym (has_suffix-append (b'/' ∷ w) rest b'/' (slash-append (v ∷ ws))) ∙ e in
          absurd (join-ne v ws h.1.0.0 (ap drop_first (ih.2 f))),
    )

cleaned-IsTidy : (p : Str) → IsTidy (path_clean_keep_root p)
unfolding path_clean_keep_root
cleaned-IsTidy p =
    let ws = resolve_dots [] (split b'/' p) in
    pieces-IsTidy ws (All-IsPiece ws (resolve_dots-All [] (split b'/' p) tt (All-split b'/' p)))

-- A path that may still end with a slash.
abbrev IsOpen : Str → Bool → Type 0
IsOpen p trailing =
    (has_prefix p (codes "/") ≡ true)
    × IsSingle p
    × (has_suffix p (codes "/") ≡ true → (p ≡ codes "/") ⊎ (trailing ≡ true))

without_dots-IsOpen :
    (p : Str) (had_hole : Bool) (flags : List Str) (trailing : Bool)
    → IsOpen p trailing
    → IsOpen (without_dots p had_hole flags).0 trailing
unfolding without_dots
without_dots-IsOpen p had_hole flags trailing h =
    let c = cleaned-IsTidy p in
    elim (Bool-cases (not had_hole && has_dots p)) [
      | inr e ↦ rw e h
      | inl e ↦ elim (Bool-cases (not (str_eq (path_clean_keep_root p) p))) [
        | inr f ↦ rw (e, f) h
        | inl f ↦ rw (e, f) (c.0, c.1, λ g. inl (c.2 g))
      ]
    ]

ends_open : (t : Str) (c : ℕ) → c ≢ b'/' → trim_suffix (t ++ c ∷ []) (codes "/") ≡ t ++ c ∷ []
unfolding trim_suffix
ends_open t c h = rw (has_suffix-snoc t c b'/') (ground (arith, h))

trim_slash-kept :
    (t : Str) (c : ℕ) (trailing : Bool) → c ≢ b'/' → trim_slash (t ++ c ∷ []) trailing ≡ t ++ c ∷ []
unfolding trim_slash
trim_slash-kept [] c trailing h = ground (arith, Bool-cases trailing)
trim_slash-kept (d ∷ t) c trailing h =
    rw (ends_open (d ∷ t) c h) (ground (arith, Bool-cases trailing))

trim_slash-cut : (d : ℕ) (t : Str) → trim_slash ((d ∷ t) ++ b'/' ∷ []) true ≡ d ∷ t
unfolding trim_slash
trim_slash-cut d t =
    rw (trim_suffix-snoc (d ∷ t) b'/') (ground (arith, length-append {0} t (b'/' ∷ [])))

tail-ne : (t : Str) → t ++ b'/' ∷ [] ≢ []
tail-ne [] e = cc
tail-ne (c ∷ t) e = cc

-- A path that ends with a slash: the root, or one whose slash is cut off.
trim_root :
    (t : Str) (trailing : Bool)
    → IsOpen (t ++ b'/' ∷ []) trailing
    → IsTidy (trim_slash (t ++ b'/' ∷ []) trailing)
unfolding trim_slash has_prefix
trim_root [] trailing h = ground (arith, Bool-cases trailing)
trim_root (d ∷ t) trailing h =
    let single = IsSingle-init (d ∷ t) b'/' h.1 in
    let last = not-suffix (d ∷ t) h.1 (λ e. cc) in
    elim (h.2 (has_suffix-snoc (d ∷ t) b'/' b'/' ∙ ground arith)) [
      | inl e ↦ absurd (tail-ne t (ap drop_first e))
      | inr e ↦ rw (e, trim_slash-cut d t) (h.0, single, λ g. absurd (ground (arith, last, g)))
    ]

trim_snoc-IsTidy :
    (t : Str) (c : ℕ) (trailing : Bool)
    → IsOpen (t ++ c ∷ []) trailing
    → IsTidy (trim_slash (t ++ c ∷ []) trailing)
unfolding has_prefix
trim_snoc-IsTidy t c trailing h = elim (Bool-cases (c == b'/')) [
  | inr e ↦
      rw (trim_slash-kept t c trailing (λ f. ground (arith, e)))
        (h.0, h.1, λ g. ground (arith, has_suffix-snoc t c b'/', e, g))
  | inl e ↦
      let f : c ≡ b'/' = ground (arith, e) in
      subst (λ (x : ℕ). IsTidy (trim_slash (t ++ x ∷ []) trailing)) (sym f)
        (trim_root t trailing (subst (λ (x : ℕ). IsOpen (t ++ x ∷ []) trailing) f h))
]

trim_slash-IsTidy : (p : Str) (trailing : Bool) → IsOpen p trailing → IsTidy (trim_slash p trailing)
unfolding has_prefix
trim_slash-IsTidy p trailing h = elim (snoc-cases p) [
  | inl e ↦ absurd (ground (arith, h.0, ap (λ (r : Str). has_prefix r (codes "/")) e))
  | inr (t, c, e) ↦
      rw e (trim_snoc-IsTidy t c trailing (subst (λ (r : Str). IsOpen r trailing) e h))
]

open_ends :
    (p : Str)
    → has_prefix p (codes "/") ≡ true
    → has_suffix p (codes "/") ≡ true
    → (p ≡ codes "/") ⊎ ((ltb 1 (length p) && has_suffix p (codes "/")) ≡ true)
unfolding has_prefix
open_ends [] h k = cc
open_ends (c ∷ []) h k = inl (ground (arith, h))
open_ends (c ∷ d ∷ p) h k = inr (ground (arith, k))

rooted_ends :
    (q : Str)
    → has_suffix (rooted q) (codes "/") ≡ true
    → (rooted q ≡ codes "/")
      ⊎ ((ltb 1 (length (rooted q)) && has_suffix (rooted q) (codes "/")) ≡ true)
rooted_ends q h = open_ends (rooted q) (rooted-starts q) h

clean_path-IsTidy :
    (p : Str) (had_hole : Bool) (flags : List Str) → IsTidy (clean_path p had_hole flags).0
unfolding clean_path has_prefix
clean_path-IsTidy [] had_hole flags = (refl, tt, λ _. refl)
clean_path-IsTidy (c ∷ s) had_hole flags =
    let q = squeeze b'/' (upper_percent_escapes (c ∷ s)) in
    let p = rooted q in
    let trailing = ltb 1 (length p) && has_suffix p (codes "/") in
    let start : IsOpen p trailing = (
      rooted-starts q,
      rooted-IsSingle q
          (double-IsSingle b'/' q (squeeze_lem b'/' (upper_percent_escapes (c ∷ s))).1),
      rooted_ends q,
    ) in
    trim_slash-IsTidy (without_dots p had_hole flags).0 trailing
      (without_dots-IsOpen p had_hole flags trailing start)

single-contains : (p : Str) → IsSingle p → contains p (codes "//") ≡ false
unfolding contains has_prefix
single-contains [] h = refl
single-contains (c ∷ []) h = ground arith
single-contains (c ∷ d ∷ p) h =
    let ih = single-contains (d ∷ p) h.1 in
    elim (Bool-cases (c == b'/')) [
      | inl e ↦ ground (arith, h.0 (ground (arith, e)), ih, e)
      | inr e ↦ ground (arith, ih, e)
    ]

-- It begins with a slash, has no two slashes in a row, and is the root or ends with no slash.
abbrev pub IsPath : Str → Type 0
IsPath p =
    (has_prefix p (codes "/") ≡ true)
    × (contains p (codes "//") ≡ false)
    × ((p ≡ codes "/") ⊎ (has_suffix p (codes "/") ≡ false))

tidy-IsPath : (p : Str) → IsTidy p → IsPath p
tidy-IsPath p h = (
  h.0,
  single-contains p h.1,
  elim (Bool-cases (has_suffix p (codes "/"))) [ inl e ↦ inl (h.2 e) | inr e ↦ inr e ],
)

-- cleanPath makes a path of every text: it begins with a slash, has no two slashes in a row, and is the
-- root or ends with no slash.
pub clean_path-IsPath :
    (p : Str) (had_hole : Bool) (flags : List Str) → IsPath (clean_path p had_hole flags).0
clean_path-IsPath p had_hole flags = tidy-IsPath _ (clean_path-IsTidy p had_hole flags)
