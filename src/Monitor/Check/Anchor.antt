-- ===== src/Monitor/Check/Anchor.antt =====
-- checkUpstream of internal/monitor/run.go: when it reports, when it moves the commit that it compares
-- with, and when it fails.
use api_integrity_tool.Base.{
  ℕ, ◌≡◌, ap, refl, ◌⊎◌, inl, inr, Bool, true, false, Bool-cases, Option, none, some, List, [], ◌∷◌,
  Str, is_empty, codes, ◌+◌, not, ◌&&◌, ◌||◌, ◌==◌, ltb, if◌then◌else◌,
}
use api_integrity_tool.Model.Repo.{Upstream}
use api_integrity_tool.Store.State.{State, UpstreamState}
use api_integrity_tool.Index.Calls.{Call}
use api_integrity_tool.Monitor.Targets.{HostMappings, targets_for}
use api_integrity_tool.Monitor.Source.{
  SourceError, RepoId, Rate, Meta, Repo, Compare, Answer, GitHubSource, is_bad_ref, is_not_found,
}
use api_integrity_tool.Monitor.Check.{
  UpstreamResult, Analyzers, Options, repo_answered, skip, baseline, compare_failed, analyzed,
  compared, after_compare, moved, gated, after_repo, repo_failed, previous, check_upstream,
  stands_still, repo_tag,
}
use api_integrity_tool.Monitor.Notes.{or_head, get_etag}

-- A state that has the commit and the time of another one.
abbrev pub SameAnchor : UpstreamState → UpstreamState → Type 0
SameAnchor prev next =
    (next.last_head_sha ≡ prev.last_head_sha) × (next.last_checked_at ≡ prev.last_checked_at)

module _ (source : GitHubSource) (analyzers : Analyzers) (opts : Options) (config : HostMappings)
    (now : ℕ) where
  -- The repository of the upstream, and the commit or branch that a check compares with.
  abbrev id_of : Upstream → RepoId
  id_of u = record { owner = u.repo.owner; name = u.repo.name }

  abbrev head_of : Upstream → UpstreamState → Str
  head_of u us = or_head u.repo.ref (or_head us.default_branch (codes "HEAD"))

  -- The findings are those that the analyzers make of the comparison from the stored commit to the head,
  -- and the new commit is the head of that comparison.
  abbrev IsCompared : Upstream → List Call → UpstreamState → UpstreamResult → Type 0
  IsCompared u calls_of prev r =
      (is_empty prev.last_head_sha ≡ false)
      × (r.skipped ≡ false)
      × (r.baselined ≡ false)
      × (r.error ≡ none)
      × ((cmp : Compare) × (tag : Str) × ((source.compare (id_of u) prev.last_head_sha
              (head_of u r.state) opts.max_files u.repo.subpath).value
            ≡ some cmp)
          × (r.state.last_head_sha ≡ or_head cmp.head_sha (head_of u r.state))
          × (r.findings
              ≡ (analyzers u calls_of prev.last_head_sha r.state.last_head_sha cmp prev.spec_paths
                  tag).findings))

  -- What a check of an upstream may do, by the state stored before and the calls that depend on it.
  abbrev pub IsRestrained : Upstream → List Call → UpstreamState → UpstreamResult → Type 0
  IsRestrained u calls_of prev r =
      ((r.findings ≡ []) ⊎ IsCompared u calls_of prev r)
      × (((r.error ≡ none) × (r.state.last_checked_at ≡ now))
          ⊎ ((e : SourceError) × (r.error ≡ some e)
              × (r.findings ≡ [])
              × (r.state.last_head_sha ≡ prev.last_head_sha)
              × (r.state.last_checked_at ≡ prev.last_checked_at)))
      × ((r.skipped ≡ false) ⊎ (r.baselined ≡ false))

  if-IsRestrained :
      (u : Upstream) (calls_of : List Call) (prev : UpstreamState) (b : Bool)
      (on off : UpstreamResult)
      → (b ≡ true → IsRestrained u calls_of prev on)
      → (b ≡ false → IsRestrained u calls_of prev off)
      → IsRestrained u calls_of prev (if b then on else off)
  if-IsRestrained u calls_of prev true on off f g = f refl
  if-IsRestrained u calls_of prev false on off f g = g refl

  compare_failed-IsRestrained :
      (u : Upstream) (calls_of : List Call) (prev next : UpstreamState) (head : Str) (calls : ℕ)
      (rate : Rate) (e : SourceError)
      → SameAnchor prev next
      → IsRestrained u calls_of prev
          (compare_failed source analyzers opts config now next (id_of u) head calls rate e)
  unfolding compare_failed
  compare_failed-IsRestrained u calls_of prev next head calls rate e h =
      elim (Bool-cases (is_bad_ref e || is_not_found e)) [
        | inl f ↦ rw f (inl refl, inl (refl, refl), inl refl)
        | inr f ↦ rw f (inl refl, inr (e, refl, refl, h.0, h.1), inl refl)
      ]

  compared-IsRestrained :
      (prev next : UpstreamState) (u : Upstream) (calls_of : List Call) (head : Str) (calls : ℕ)
      (rate : Rate) (cmp : Option Compare)
      → is_empty prev.last_head_sha ≡ false
      → head ≡ head_of u next
      → (source.compare
          (id_of u)
          prev.last_head_sha
          (head_of u next)
          opts.max_files
          u.repo.subpath).value
        ≡ cmp
      → IsRestrained u calls_of prev
          (compared source analyzers opts config now prev next u calls_of head calls rate cmp)
  unfolding compared analyzed
  compared-IsRestrained prev next u calls_of head calls rate none h hd an =
      (inl refl, inl (refl, refl), inr refl)
  compared-IsRestrained prev next u calls_of head calls rate (some cmp) h hd an =
      elim (Bool-cases (stands_still cmp)) [
        | inl f ↦ rw f (inl refl, inl (refl, refl), inr refl)
        | inr f ↦ rw f (
          inr (
            h,
            refl,
            refl,
            refl,
            (cmp, next.last_release_tag, an, ap (or_head cmp.head_sha) hd, refl),
          ),
          inl (refl, refl),
          inl refl,
        )
      ]

  after_compare-IsRestrained :
      (prev next : UpstreamState) (u : Upstream) (calls_of : List Call) (head : Str) (calls : ℕ)
      (rate : Rate) (ans : Answer Compare) (error : Option SourceError)
      → ans.error ≡ error
      → is_empty prev.last_head_sha ≡ false
      → head ≡ head_of u next
      → (source.compare
          (id_of u)
          prev.last_head_sha
          (head_of u next)
          opts.max_files
          u.repo.subpath).value
        ≡ ans.value
      → SameAnchor prev next
      → IsRestrained u calls_of prev (
          after_compare source analyzers opts config now prev next
            (id_of u)
            u
            calls_of
            head
            calls
            rate
            ans)
  unfolding after_compare
  after_compare-IsRestrained prev next u calls_of head calls rate ans (some e) same h hd an k =
      let last = if ltb 0 ans.meta.rate.limit then ans.meta.rate else rate in
      rw same
        (compare_failed-IsRestrained u calls_of prev next head (calls + ans.meta.calls) last e k)
  after_compare-IsRestrained prev next u calls_of head calls rate ans none same h hd an k =
      let last = if ltb 0 ans.meta.rate.limit then ans.meta.rate else rate in
      rw same (
        compared-IsRestrained prev next u calls_of head (calls + ans.meta.calls) last ans.value h hd
          an)

  -- The calls that depend on the upstream are compared, unless there is none.
  targeted-IsRestrained :
      (prev next : UpstreamState) (u : Upstream) (calls : ℕ) (rate : Rate) (calls_of : List Call)
      → is_empty prev.last_head_sha ≡ false
      → SameAnchor prev next
      → IsRestrained u calls_of prev (elim calls_of [
        | [] ↦ skip source analyzers opts config now next calls rate []
        | c ∷ cs ↦
            after_compare source analyzers opts config now prev next
              (id_of u)
              u
              (c ∷ cs)
              (head_of u next)
              calls
              rate
              (source.compare
                (id_of u)
                prev.last_head_sha
                (head_of u next)
                opts.max_files
                u.repo.subpath)
      ])
  targeted-IsRestrained prev next u calls rate [] h k = (inl refl, inl (refl, refl), inr refl)
  targeted-IsRestrained prev next u calls rate (c ∷ cs) h k =
      let ans =
        source.compare (id_of u) prev.last_head_sha (head_of u next) opts.max_files
          u.repo.subpath in
      after_compare-IsRestrained prev next u (c ∷ cs) (head_of u next) calls rate ans ans.error refl
        h refl refl k

  moved-IsRestrained :
      (prev next : UpstreamState) (u : Upstream) (index : List Call) (calls : ℕ) (rate : Rate)
      → SameAnchor prev next
      → IsRestrained u
          (targets_for config u index)
          prev
          (moved source analyzers opts config now prev next (id_of u) u index calls rate)
  unfolding moved baseline
  moved-IsRestrained prev next u index calls rate k =
      if-IsRestrained u (targets_for config u index) prev (is_empty prev.last_head_sha) _ _
        (λ e. (inl refl, inl (refl, refl), inl refl))
        (λ e. targeted-IsRestrained prev next u calls rate (targets_for config u index) e k)

  gated-IsRestrained :
      (prev next : UpstreamState) (u : Upstream) (index : List Call) (m : Meta) (repo : Option Repo)
      → SameAnchor prev next
      → IsRestrained u
          (targets_for config u index)
          prev
          (gated source analyzers opts config now prev next (id_of u) u index m repo)
  unfolding gated
  gated-IsRestrained prev next u index m none k = elim (Bool-cases m.not_modified) [
    | inl e ↦ rw e (inl refl, inl (refl, refl), inr refl)
    | inr e ↦ rw e (moved-IsRestrained prev next u index m.calls m.rate k)
  ]
  gated-IsRestrained prev next u index m (some repo) k = elim (Bool-cases repo.archived) [
    | inl e ↦ rw e (inl refl, inl (refl, refl), inr refl)
    | inr e ↦
        elim (Bool-cases (
          not opts.force
          && (not (prev.pushed_at_seen == 0) && not (ltb prev.pushed_at_seen repo.pushed_at)))) [
            | inl f ↦ rw (e, f) (inl refl, inl (refl, refl), inr refl)
            | inr f ↦
                rw (e, f)
                  (moved-IsRestrained prev
                    (record next {
                      default_branch = repo.default_branch;
                      pushed_at_seen = repo.pushed_at;
                    })
                    u index m.calls m.rate k)
          ]
  ]

  after_repo-IsRestrained :
      (prev : UpstreamState) (u : Upstream) (index : List Call) (ans : Answer Repo)
      (error : Option SourceError)
      → ans.error ≡ error
      → IsRestrained u
          (targets_for config u index)
          prev
          (after_repo source analyzers opts config now prev (id_of u) u index ans)
  unfolding after_repo repo_failed repo_answered
  after_repo-IsRestrained prev u index ans (some e) same =
      rw same (inl refl, inr (e, refl, refl, refl, refl), inl refl)
  after_repo-IsRestrained prev u index ans none same = rw same (
      gated-IsRestrained prev (repo_answered prev ans.meta) u index ans.meta ans.value (refl, refl))

  -- For every repository host and all analyzers, a check of an upstream reports only what the analyzers
  -- find between the commit stored for it and the head of its reference or default branch, in the
  -- host's comparison of the two, whose head it then stores; and it reports only when it is neither
  -- skipped, nor a first baseline, nor failed. It is never both skipped and a baseline; and either
  -- it has no error and notes the time, or it reports nothing and keeps the stored commit and the
  -- stored time.
  pub check_upstream-IsRestrained :
      (st : State) (u : Upstream) (index : List Call)
      → IsRestrained u
          (targets_for config u index)
          (previous source analyzers opts config now st u)
          (check_upstream source analyzers opts config now st u index)
  unfolding check_upstream
  check_upstream-IsRestrained st u index =
      let prev = previous source analyzers opts config now st u in
      let ans = source.repo (id_of u) (if opts.force then [] else get_etag repo_tag prev.etags) in
      after_repo-IsRestrained prev u index ans ans.error refl
