-- ===== src/Store/Links/Triples.antt =====
-- LinkUpstream keeps one link for each triple of host, repository and path prefix.
use api_integrity_tool.Base.{
  ℕ, ◌≤◌, ◌≡◌, refl, ap, sym, subst, ◌⊎◌, inl, inr, true, false, Bool-cases, none, some, List, [],
  ◌∷◌, ◌++◌, All, arith, codes, is_empty, if◌then◌else◌, str_eq_iff, Perm, sort_by, sort_by-perm,
}
use api_integrity_tool.Model.Repo.{Upstream, key}
use api_integrity_tool.Store.State.{
  State, Disk, ok, schema_version, normalize, update-ok, upstream_less,
}
use api_integrity_tool.Store.Links.{
  default_role, same_triple, complete_link, replace_link, link_step, link_upstream,
}

-- The links have the same host, repository key and path prefix.
abbrev pub IsSameTriple : Upstream → Upstream → Type 0
IsSameTriple e u = (e.host ≡ u.host) × (key e.repo ≡ key u.repo) × (e.path_prefix ≡ u.path_prefix)

same_triple_iff :
    (e u : Upstream)
    → (same_triple e u ≡ true → IsSameTriple e u) × (same_triple e u ≡ false → ¬ IsSameTriple e u)
unfolding same_triple
same_triple_iff e u = (
  λ h. ground (
    arith,
    h,
    str_eq_iff e.host u.host,
    str_eq_iff (key e.repo) (key u.repo),
    str_eq_iff e.path_prefix u.path_prefix,
  ),
  λ h s. ground (
    arith,
    h,
    s,
    str_eq_iff e.host u.host,
    str_eq_iff (key e.repo) (key u.repo),
    str_eq_iff e.path_prefix u.path_prefix,
  ),
)

abbrev pub upstreams_of : Disk → List Upstream
upstreams_of none = []
upstreams_of (some st) = st.upstreams

-- No link of the list has the triple of `u`.
abbrev pub LacksTriple : Upstream → List Upstream → Type 0
LacksTriple u = All (λ e. ¬ IsSameTriple e u)

-- The link `w` stands in `after` where the first link of its triple stood in `before`, with the time of
-- creation of that link, and nothing else differs.
abbrev IsReplaced : Upstream → List Upstream → List Upstream → Type 0
IsReplaced w before after =
    (front : List Upstream) × (e : Upstream) × (back : List Upstream) × (before ≡ front ++ e ∷ back)
    × LacksTriple w front
    × IsSameTriple e w
    × (after ≡ front ++ record w { created_at = e.created_at } ∷ back)

replace_link-cases :
    (u : Upstream) (us : List Upstream)
    → ((replace_link u us ≡ none) × LacksTriple u us)
      ⊎ ((us' : List Upstream) × (replace_link u us ≡ some us') × IsReplaced u us us')
unfolding replace_link
replace_link-cases u [] = inl (refl, tt)
replace_link-cases u (e ∷ es) = elim (Bool-cases (same_triple e u)) [
  | inl q ↦ rw q (inr (_, refl, ([], e, es, refl, tt, (same_triple_iff e u).0 q, refl)))
  | inr q ↦ elim (replace_link-cases u es) [
    | inl (n, h) ↦ rw (q, n) (inl (refl, ((same_triple_iff e u).1 q, h)))
    | inr (es', n, (front, x, back, b, l, s, a)) ↦
        rw (q, n)
          (inr (
            e ∷ es',
            refl,
            (
              e ∷ front,
              x,
              back,
              ap (λ t. e ∷ t) b,
              ((same_triple_iff e u).1 q, l),
              s,
              ap (λ t. e ∷ t) a,
            ),
          ))
  ]
]

-- The link that LinkUpstream stores: it is updated now and has the defaults of its role and status.
abbrev pub renewed : ℕ → ℕ → Upstream → Upstream
renewed now created u = record u {
  role = default_role u.role;
  status = if is_empty u.status then codes "active" else u.status;
  updated_at = now;
  created_at = created;
}

-- The links after: the first link of the triple was replaced where it stood, and keeps only its time of
-- creation; or there was none, and the link is a new one, created now.
abbrev pub IsLinked : ℕ → Upstream → List Upstream → List Upstream → Type 0
IsLinked now u before after =
    (LacksTriple u before × Perm after (before ++ renewed now now u ∷ []))
    ⊎ ((front : List Upstream) × (e : Upstream) × (back : List Upstream) × (before
          ≡ front ++ e ∷ back)
        × LacksTriple u front
        × IsSameTriple e u
        × Perm after (front ++ renewed now e.created_at u ∷ back))

module _ (u : Upstream) (now : ℕ) (st : State) where
  upstreams-link_upstream :
      st.version ≤ schema_version
      → upstreams_of (link_upstream u now (some st)).1
        ≡ sort_by upstream_less (link_step u now st).upstreams
  unfolding link_upstream normalize
  upstreams-link_upstream known =
      ap (λ r. upstreams_of r.1)
        (update-ok (λ s. ok (link_step u now s, tt)) now st (link_step u now st) tt known refl)

  link_step-IsLinked :
      IsLinked now u st.upstreams (sort_by upstream_less (link_step u now st).upstreams)
  unfolding link_step complete_link
  link_step-IsLinked = elim (replace_link-cases (complete_link now u) st.upstreams) [
    | inl (n, h) ↦ rw (n, link_step) (inl (h, sort_by-perm upstream_less _))
    | inr (us, n, (front, e, back, b, l, s, a)) ↦
        rw (n, link_step)
          (inr (
            front,
            e,
            back,
            b,
            l,
            s,
            subst (λ t. Perm (sort_by upstream_less us) t) a (sort_by-perm upstream_less us),
          ))
  ]

  -- On a readable state, LinkUpstream puts the link in the place of the first one with its host, repository
  -- and path prefix, of which only the time of creation stays, or, if there is none, adds it as
  -- created now; it is updated now, and every other link stays as it was.
  pub link_upstream_lem :
      st.version ≤ schema_version
      → IsLinked now u st.upstreams (upstreams_of (link_upstream u now (some st)).1)
  link_upstream_lem known =
      subst (IsLinked now u st.upstreams) (sym (upstreams-link_upstream known)) link_step-IsLinked
