-- ===== src/Linker/Sync.antt =====
-- SyncConfig of internal/linker/linker.go: the configuration replaces its own links and no others.
use api_integrity_tool.Base.{
  ℕ, ◌≡◌, refl, ap, ◌∙◌, Bool, true, not, List, [], ◌∷◌, ◌++◌, keep, map, All, All-append, subst,
  Str, str_eq_refl, arith, Bool-cases, inl, inr, Option,
}
use mathlib.Core.List.{append-nil}
use api_integrity_tool.Model.Repo.{RepoRef, Upstream}
use api_integrity_tool.Store.State.{State}
use api_integrity_tool.Upstream.Ref.{RepoUrl, Parsed, ok, fail, ◌>>=◌, parse_repo_ref}
use api_integrity_tool.Linker.Config.{
  ConfigFile, UpstreamEntry, UnmonitoredEntry, source_config, entry_upstream, entry_decision,
  host_upstreams, all_upstreams, configured_upstreams, configured_decisions,
}
use api_integrity_tool.Linker.Linking.{
  is_config_link, is_config_decision, dated_link, dated_decision, sync_step,
}

-- Filters of a list that is put behind another.
keep-append :
    {A : Type 0} (p : A → Bool) (xs ys : List A) → keep p (xs ++ ys) ≡ keep p xs ++ keep p ys
keep-append p [] ys = refl
keep-append p (x ∷ xs) ys = elim (Bool-cases (p x)) [
  | inl e ↦ rw e (ap (λ r. x ∷ r) (keep-append p xs ys))
  | inr e ↦ rw e (keep-append p xs ys)
]

keep-keep : {A : Type 0} (p : A → Bool) (xs : List A) → keep p (keep p xs) ≡ keep p xs
keep-keep p [] = refl
keep-keep p (x ∷ xs) = ground (arith, Bool-cases (p x), keep-keep p xs)

keep-not : {A : Type 0} (p : A → Bool) (xs : List A) → keep p (keep (λ x. not (p x)) xs) ≡ []
keep-not p [] = refl
keep-not p (x ∷ xs) = ground (arith, Bool-cases (p x), keep-not p xs)

keep-All : {A : Type 0} (p : A → Bool) (xs : List A) → All (λ x. p x ≡ true) xs → keep p xs ≡ xs
keep-All p [] h = refl
keep-All p (x ∷ xs) h = ground (arith, h.0, keep-All p xs h.1)

keep-none :
    {A : Type 0} (p : A → Bool) (xs : List A)
    → All (λ x. p x ≡ true) xs
    → keep (λ x. not (p x)) xs ≡ []
keep-none p [] h = refl
keep-none p (x ∷ xs) h = ground (arith, h.0, keep-none p xs h.1)

-- A list whose own part is replaced: the part is the new one, and the rest is what it was.
replaced :
    {A : Type 0} (p : A → Bool) (xs ys : List A)
    → All (λ y. p y ≡ true) ys
    → (keep p (keep (λ x. not (p x)) xs ++ ys) ≡ ys)
      × (keep (λ x. not (p x)) (keep (λ x. not (p x)) xs ++ ys) ≡ keep (λ x. not (p x)) xs)
replaced p xs ys h = (
  keep-append p (keep (λ x. not (p x)) xs) ys
      ∙ ap (λ r. r ++ keep p ys) (keep-not p xs)
      ∙ keep-All p ys h,
  keep-append (λ x. not (p x)) (keep (λ x. not (p x)) xs) ys
      ∙ ap (λ r. r ++ keep (λ x. not (p x)) ys) (keep-keep (λ x. not (p x)) xs)
      ∙ ap (λ r. keep (λ x. not (p x)) xs ++ r) (keep-none p ys h)
      ∙ append-nil (keep (λ x. not (p x)) xs),
)

-- All of the configuration's own links carry its mark.
abbrev AllMarked : Parsed (List Upstream) → Type 0
AllMarked (ok us) = All (λ u. is_config_link u ≡ true) us
AllMarked (fail e) = Unit

entry-IsMarked :
    (host : Str) (e : UpstreamEntry) (ref : Parsed RepoRef) (rest : Parsed (List Upstream))
    → AllMarked rest
    → AllMarked (ref >>= λ r. rest >>= λ us. ok (entry_upstream host e r ∷ us))
unfolding entry_upstream
entry-IsMarked host e (fail x) rest h = tt
entry-IsMarked host e (ok ref) (fail x) h = tt
entry-IsMarked host e (ok ref) (ok us) h = (str_eq_refl source_config, h)

joined-AllMarked :
    (here rest : Parsed (List Upstream))
    → AllMarked here
    → AllMarked rest
    → AllMarked (here >>= λ us. rest >>= λ vs. ok (us ++ vs))
joined-AllMarked (fail x) rest h k = tt
joined-AllMarked (ok us) (fail x) h k = tt
joined-AllMarked (ok us) (ok vs) h k = All-append (λ u. is_config_link u ≡ true) us vs h k

dated-All :
    (now : ℕ) (us : List Upstream)
    → All (λ u. is_config_link u ≡ true) us
    → All (λ u. is_config_link u ≡ true) (map (dated_link now) us)
dated-All now [] h = tt
dated-All now (u ∷ us) h = (h.0, dated-All now us h.1)

decisions-All :
    (now : ℕ) (us : List UnmonitoredEntry)
    → All (λ d. is_config_decision d ≡ true) (map (dated_decision now) (map entry_decision us))
unfolding entry_decision
decisions-All now [] = tt
decisions-All now (u ∷ us) = (str_eq_refl source_config, decisions-All now us)

module _ (parse : Str → Option RepoUrl) where
  host_upstreams-AllMarked :
      (host : Str) (es : List UpstreamEntry) → AllMarked (host_upstreams parse host es)
  unfolding host_upstreams
  host_upstreams-AllMarked host [] = tt
  host_upstreams-AllMarked host (e ∷ es) =
      entry-IsMarked host e (parse_repo_ref parse e.repo) (host_upstreams parse host es)
        (host_upstreams-AllMarked host es)

  all_upstreams-AllMarked :
      (hosts : List (Str × List UpstreamEntry)) → AllMarked (all_upstreams parse hosts)
  unfolding all_upstreams
  all_upstreams-AllMarked [] = tt
  all_upstreams-AllMarked ((host, es) ∷ hosts) =
      joined-AllMarked (host_upstreams parse host es) (all_upstreams parse hosts)
        (host_upstreams-AllMarked host es) (all_upstreams-AllMarked hosts)

  -- For a configuration that can be read, SyncConfig leaves as links of the configuration exactly the
  -- ones that it names, and every link from elsewhere as it was, and so for the decisions; to do it
  -- again at the same time changes nothing.
  pub sync_step_lem :
      (f : ConfigFile) (ups : List Upstream) (now : ℕ) (st : State)
      → configured_upstreams parse f ≡ ok ups
      → let after = sync_step ups (configured_decisions f) now st in
        (keep is_config_link after.upstreams ≡ map (dated_link now) ups)
        × (keep (λ u. not (is_config_link u)) after.upstreams
            ≡ keep (λ u. not (is_config_link u)) st.upstreams)
        × (keep is_config_decision after.decisions
            ≡ map (dated_decision now) (configured_decisions f))
        × (keep (λ d. not (is_config_decision d)) after.decisions
            ≡ keep (λ d. not (is_config_decision d)) st.decisions)
        × (sync_step ups (configured_decisions f) now after ≡ after)
  unfolding sync_step configured_upstreams configured_decisions
  sync_step_lem f ups now st e =
      let marked = dated-All now ups (subst AllMarked e (all_upstreams-AllMarked f.upstreams)) in
      let links = replaced is_config_link st.upstreams (map (dated_link now) ups) marked in
      let ds = map (dated_decision now) (map entry_decision f.unmonitored_hosts) in
      let decided =
        replaced is_config_decision st.decisions ds (decisions-All now f.unmonitored_hosts) in
      (links.0, links.1, decided.0, decided.1, rw (links.1, decided.1) refl)
