-- ===== src/Store/Findings/Stale.antt =====
-- ResolveStale closes exactly the stale findings, and a closed finding that is seen again is open.
use api_integrity_tool.Base.{not, ◌&&◌, true, any, str_eq, codes, subst}
use api_integrity_tool.Model.Repo.{key}
use api_integrity_tool.Model.Finding.{FindingStatus, resolved}
use api_integrity_tool.Base.{
  ℕ, ◌≤◌, ◌≡◌, refl, inl, inr, Bool, false, some, List, [], ◌∷◌, map, arith, if◌then◌else◌,
  Bool-cases, Str, length, keep, Perm, sort_by-perm, ap,
}
use api_integrity_tool.Model.Finding.{Finding, finding_less, sort_findings}
use api_integrity_tool.Store.State.{State, ok, schema_version, update-ok, normalize}
use api_integrity_tool.Store.Findings.{
  is_stale, close_finding, resolve_loop, resolve_step, resolve_stale,
}
use api_integrity_tool.Store.Findings.Refines.{findings_of}

-- The reference: close each stale finding, and leave the others.
abbrev pub close_stale : (Finding → Bool) → (Finding → Finding) → List Finding → List Finding
close_stale stale close = map (λ f. if stale f then close f else f)

abbrev pub is_unresolved : FindingStatus → Bool
is_unresolved resolved = false
is_unresolved _ = true

-- A finding is live no more: it has the signal and the repository, its fingerprint is not among the live
-- ones, and it is not resolved already.
abbrev pub is_over : Str → Str → List Str → Finding → Bool
is_over signal repo_key live f =
    str_eq f.signal signal
    && (str_eq (key f.repo) repo_key
        && (not (any (λ fp. str_eq fp f.fingerprint) live) && is_unresolved f.status))

-- What the monitor makes of it.
abbrev pub closed_by_monitor : ℕ → Str → Finding → Finding
closed_by_monitor now note f = record f {
  status = resolved;
  status_note = note;
  status_by = codes "monitor";
  status_at = some now;
}

over_status :
    (b c live : Bool) (s : FindingStatus)
    → (if b && c then elim s [ resolved ↦ false | _ ↦ not live ] else false)
      ≡ (b && (c && (not live && is_unresolved s)))
over_status b c live s = ground arith

is_stale-is_over :
    (signal repo_key : Str) (live : List Str) (f : Finding)
    → is_stale signal repo_key live f ≡ is_over signal repo_key live f
unfolding is_stale
is_stale-is_over signal repo_key live f =
    over_status (str_eq f.signal signal) (str_eq (key f.repo) repo_key)
      (any (λ fp. str_eq fp f.fingerprint) live) f.status

resolve_loop_lem :
    (stale : Finding → Bool) (close : Finding → Finding) (fs : List Finding)
    → resolve_loop stale close fs ≡ (close_stale stale close fs, length (keep stale fs))
unfolding resolve_loop
resolve_loop_lem stale close [] = refl
resolve_loop_lem stale close (f ∷ fs) = elim (Bool-cases (stale f)) [
  | inl e ↦
      rw (e, resolve_loop_lem stale close fs)
        (ap (λ n. (close f ∷ close_stale stale close fs, n)) (omega arith))
  | inr e ↦ rw (e, resolve_loop_lem stale close fs)
]

module _ (signal repo_key : Str) (live : List Str) (note : Str) (now : ℕ) (st : State)
    (known : st.version ≤ schema_version) where
  after_close : State
  after_close = record st {
    findings = close_stale (is_stale signal repo_key live) (close_finding now note) st.findings;
  }

  -- What ResolveStale returns and writes.
  resolve_stale-eq : resolve_stale signal repo_key live note now (some st) ≡ (
    ok (length (keep (is_stale signal repo_key live) st.findings)),
    some (normalize (record after_close { version = schema_version; updated_at = now })),
  )
  unfolding resolve_stale after_close resolve_step
  resolve_stale-eq =
      update-ok (resolve_step signal repo_key live note now) now st after_close _ known
        (rw resolve_loop_lem)

  resolve_stale-close_stale :
      findings_of (resolve_stale signal repo_key live note now (some st)).1
      ≡ sort_findings
          (close_stale (is_stale signal repo_key live) (close_finding now note) st.findings)
  unfolding normalize after_close
  resolve_stale-close_stale = rw resolve_stale-eq

  -- On a readable state, ResolveStale marks as resolved, with the note, the time and the monitor's name,
  -- each finding of the signal and the repository whose fingerprint is not among the live ones and
  -- that was not resolved already; it changes no other finding, and reports how many it marked.
  pub resolve_stale_lem :
      ((resolve_stale signal repo_key live note now (some st)).0
        ≡ ok (length (keep (is_over signal repo_key live) st.findings)))
      × Perm (findings_of (resolve_stale signal repo_key live note now (some st)).1) (
          map
            (λ f. if is_over signal repo_key live f then closed_by_monitor now note f else f)
            st.findings)
  unfolding sort_findings close_finding
  resolve_stale_lem =
      subst
        (λ (over : Finding → Bool).
          ((resolve_stale signal repo_key live note now (some st)).0
            ≡ ok (length (keep over st.findings)))
          × Perm (findings_of (resolve_stale signal repo_key live note now (some st)).1)
              (map (λ f. if over f then closed_by_monitor now note f else f) st.findings))
        (λ i f. is_stale-is_over signal repo_key live f i)
        (rw resolve_stale-eq, rw resolve_stale-close_stale (sort_by-perm finding_less _))
