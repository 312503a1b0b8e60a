-- ===== src/Monitor/Run/Pass.antt =====
-- The loop of Run in internal/monitor/run.go: it accounts for every upstream, and a complete run is a pass
-- over all of them.
use api_integrity_tool.Base.{
  ℕ, ◌+◌, ◌≡◌, refl, ◌⊎◌, inl, inr, Bool, true, false, Bool-cases, none, List, [], ◌∷◌,
  if◌then◌else◌, length, codes, Str, arith,
}
use api_integrity_tool.Model.Repo.{Upstream, key}
use api_integrity_tool.Store.State.{State, Disk, Result, ok, err}
use api_integrity_tool.Store.Runs.{set_check_state}
use api_integrity_tool.Index.Calls.{Call}
use api_integrity_tool.Monitor.Targets.{HostMappings}
use api_integrity_tool.Monitor.Source.{GitHubSource}
use api_integrity_tool.Monitor.Check.{UpstreamResult}
use api_integrity_tool.Monitor.Run.{
  Progress, note, note_error, break_off, looped, rate_limited_error, go_on, Looped, RunOptions,
  rate_is_low, RunAnalyzers, share_etags, checked_upstream, run_loop,
}

note-counts :
    (u : Upstream) (out : UpstreamResult) (p : Progress)
    → (note u out p).checked + (note u out p).skipped ≡ p.checked + p.skipped + 1
unfolding note
note-counts u out p = ground (arith, Bool-cases out.skipped)

module _ (source : GitHubSource) (analyzers : RunAnalyzers) (opts : RunOptions)
    (config : HostMappings) (index : List Call) (now : ℕ) where
  abbrev out_of : State → ℕ → Upstream → UpstreamResult
  out_of st spent u =
      checked_upstream source analyzers opts config index (λ i. false) now st spent u

  -- The checks of all upstreams, in their order, each with the ETags and the budget that the ones before
  -- have left.
  abbrev pub full_pass : List Upstream → State → ℕ → Progress → Progress
  full_pass [] st spent p = p
  full_pass (u ∷ us) st spent p =
      let out = out_of st spent u in
      full_pass us (share_etags u out st) (spent + out.spent)
        (note_error u out.error (note u out p))

  abbrev pub Accounts : List Upstream → State → ℕ → Progress → Looped → Type 0
  Accounts us st spent p l =
      (l.progress.checked + l.progress.skipped ≡ p.checked + p.skipped + length us)
      × ((l.progress.complete ≡ false) ⊎ (l.progress ≡ full_pass us st spent p))

  -- A loop that is broken off, or goes on.
  break-Accounts :
      (b : Bool) (reason : Str) (us : List Upstream) (st : State) (spent : ℕ) (p : Progress)
      (disk : Disk) (rest : Looped)
      → (rest.error ≡ none → Accounts us st spent p rest)
      → (if b then looped (break_off reason (length us) p) disk else rest).error ≡ none
      → Accounts us st spent p (if b then looped (break_off reason (length us) p) disk else rest)
  break-Accounts true reason us st spent p disk rest ih h = (omega arith, inl refl)
  break-Accounts false reason us st spent p disk rest ih h = ih h

  -- The accounts of a loop that has one upstream less to go, behind the result of its check.
  abbrev AccountsAfter : Upstream → List Upstream → State → ℕ → Progress → Looped → Type 0
  AccountsAfter u us st spent p l =
      let out = out_of st spent u in
      Accounts us (share_etags u out st) (spent + out.spent) (note_error u out.error (note u out p))
        l

  more-Accounts :
      (u : Upstream) (us : List Upstream) (st : State) (spent : ℕ) (p : Progress) (l : Looped)
      → AccountsAfter u us st spent p l
      → Accounts (u ∷ us) st spent p l
  more-Accounts u us st spent p l h = (omega (arith, h.0, note-counts u (out_of st spent u) p), h.1)

  go_on-Accounts :
      {A : Type 0} (res : Result A) (u : Upstream) (us : List Upstream) (st : State) (spent : ℕ)
      (p : Progress) (disk : Disk) (rest : Looped)
      → (rest.error ≡ none → AccountsAfter u us st spent p rest)
      → (go_on res u
          (out_of st spent u).error
          (length us)
          (note u (out_of st spent u) p)
          disk
          rest).error
        ≡ none
      → Accounts (u ∷ us) st spent p (
          go_on res u
            (out_of st spent u).error
            (length us)
            (note u (out_of st spent u) p)
            disk
            rest)
  go_on-Accounts (err e) u us st spent p disk rest ih h = cc
  go_on-Accounts (ok a) u us st spent p disk rest ih h =
      let out = out_of st spent u in
      let limited = rate_limited_error out.error in
      let after = note_error u out.error (note u out p) in
      let left : Looped =
        if limited
        then looped (break_off (codes "rate_limited") (length us) after) disk
        else rest in
      more-Accounts u us st spent p left (
        break-Accounts limited (codes "rate_limited") us (share_etags u out st) (spent + out.spent)
          after disk rest ih h)

  -- While the context is not done and the store does not fail, each upstream of a run is counted as checked
  -- or as skipped, once; and a run that calls itself complete has gone through all of them: what it
  -- has gathered is what the checks of all its upstreams give, one after the other, each against the
  -- stored state with the ETags and the budget of bytes that the checks before it have left.
  pub run_loop-Accounts :
      (i : ℕ) (us : List Upstream) (st : State) (spent : ℕ) (p : Progress) (disk : Disk)
      → (run_loop source analyzers opts config index (λ i. false) now i us st spent p disk).error
        ≡ none
      → Accounts us st spent p
          (run_loop source analyzers opts config index (λ i. false) now i us st spent p disk)
  unfolding run_loop
  run_loop-Accounts i [] st spent p disk h = (omega arith, inr refl)
  run_loop-Accounts i (u ∷ us) st spent p disk h =
      let out = out_of st spent u in
      let stored = set_check_state (key u.repo) out.state now disk in
      let after = note_error u out.error (note u out p) in
      let next = share_etags u out st in
      let rest =
        run_loop source analyzers opts config index (λ i. false) now (i + 1) us next
          (spent + out.spent) after stored.1 in
      break-Accounts (rate_is_low opts p) (codes "rate_budget_reached") (u ∷ us) st spent p disk
        (go_on stored.0 u out.error (length us) (note u out p) stored.1 rest)
        (go_on-Accounts stored.0 u us st spent p stored.1 rest
          (run_loop-Accounts (i + 1) us next (spent + out.spent) after stored.1))
        h
