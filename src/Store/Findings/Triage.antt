-- ===== src/Store/Findings/Triage.antt =====
-- What UpsertFindings does to a finding that a person has already judged.
use api_integrity_tool.Base.{
  ℕ, ◌+◌, ◌≤◌, ◌≡◌, refl, ap, ◌∙◌, inl, inr, true, false, ltb, some, List, [], ◌∷◌, arith,
  if◌then◌else◌, Bool-cases, All, Str, str_eq, find_by,
}
use api_integrity_tool.Model.Severity.{rank}
use api_integrity_tool.Model.Finding.{Finding, acked, muted}
use api_integrity_tool.Store.State.{State, schema_version}
use api_integrity_tool.Store.Findings.{
  refresh, reopen_resolved, raise_severity, seen_again, upsert_findings,
}
use api_integrity_tool.Store.Findings.Refines.{
  print, Distinct, findings_of, seen_all, upsert_findings_lem,
}

-- How many of the fresh findings have the fingerprint.
abbrev pub mentions : Str → List Finding → ℕ
mentions fp [] = 0
mentions fp (f ∷ fresh) =
    let rest = mentions fp fresh in if str_eq f.fingerprint fp then rest + 1 else rest

-- None of the fresh findings with the fingerprint is more severe than `e`.
abbrev pub NoneWorse : Str → Finding → List Finding → Type 0
NoneWorse fp e = All (λ f. str_eq f.fingerprint fp ≡ true → rank e.severity ≤ rank f.severity)

-- `e'` continues the history of `e`, seen `n` times more.
pub record Continues (e : Finding) (n : ℕ) (e' : Finding) : Type 0 where
  pub first_seen : e'.first_seen_at ≡ e.first_seen_at
  pub counted : e'.occurrences ≡ e.occurrences + n
  pub no_milder : rank e'.severity ≤ rank e.severity
  pub muted_stays : e.status ≡ muted → e'.status ≡ muted

Continues-trans :
    {a b c : Finding} (m n : ℕ) → Continues a m b → Continues b n c → Continues a (n + m) c
Continues-trans m n h k = record {
  first_seen = k.first_seen ∙ h.first_seen;
  counted = omega arith;
  no_milder = omega arith;
  muted_stays = λ e. k.muted_stays (h.muted_stays e);
}

refresh-Continues : (now : ℕ) (f e : Finding) → Continues e 1 (refresh now f e)
unfolding refresh
refresh-Continues now f e = record {
  first_seen = refl;
  counted = refl;
  no_milder = omega arith;
  muted_stays = λ h. h;
}

reopen_resolved-Continues : (e : Finding) → Continues e 0 (reopen_resolved e)
unfolding reopen_resolved
reopen_resolved-Continues e = record {
  first_seen = ground arith;
  counted = ground arith;
  no_milder = ground arith;
  muted_stays = λ h. ground arith;
}

raise_severity-Continues : (f e : Finding) → Continues e 0 (raise_severity f e)
unfolding raise_severity
raise_severity-Continues f e = record {
  first_seen = ground arith;
  counted = ground arith;
  no_milder = ground arith;
  muted_stays = λ h. ground arith;
}

seen_again-Continues : (now : ℕ) (f e : Finding) → Continues e 1 (seen_again now f e)
unfolding seen_again
seen_again-Continues now f e =
    Continues-trans 1 0
      (Continues-trans 1 0 (refresh-Continues now f e)
        (reopen_resolved-Continues (refresh now f e)))
      (raise_severity-Continues f (reopen_resolved (refresh now f e)))

Continues-refl : (e : Finding) → Continues e 0 e
Continues-refl e = record {
  first_seen = refl;
  counted = omega arith;
  no_milder = omega arith;
  muted_stays = λ h. h;
}

seen_all-Continues :
    (now : ℕ) (fp : Str) (fresh : List Finding) (e : Finding)
    → (e' : Finding) × (seen_all now fp fresh (some e) ≡ some e')
      × Continues e (mentions fp fresh) e'
unfolding seen_all
seen_all-Continues now fp [] e = (e, refl, Continues-refl e)
seen_all-Continues now fp (f ∷ fresh) e = elim (Bool-cases (str_eq f.fingerprint fp)) [
  | inl q ↦
      let (e', found, c) = seen_all-Continues now fp fresh (seen_again now f e) in
      rw q (e', found, Continues-trans 1 (mentions fp fresh) (seen_again-Continues now f e) c)
  | inr q ↦ rw q (seen_all-Continues now fp fresh e)
]

reopen_resolved-acked : (e : Finding) → e.status ≡ acked → reopen_resolved e ≡ e
unfolding reopen_resolved
reopen_resolved-acked e h = simp (h, reopen_resolved)

raise_severity-milder : (f e : Finding) → rank e.severity ≤ rank f.severity → raise_severity f e ≡ e
unfolding raise_severity
raise_severity-milder f e h = rw (not_lt (rank f.severity) (rank e.severity) h, raise_severity)
  where
    not_lt : (m n : ℕ) → n ≤ m → ltb m n ≡ false
    not_lt m n h = ground arith

-- Neither later step changes an acknowledged finding that did not get worse.
seen_again-acked :
    (now : ℕ) (f e : Finding)
    → e.status ≡ acked
    → rank e.severity ≤ rank f.severity
    → seen_again now f e ≡ refresh now f e
unfolding seen_again refresh
seen_again-acked now f e h k =
    ap (raise_severity f) (reopen_resolved-acked (refresh now f e) h)
    ∙ raise_severity-milder f (refresh now f e) k

seen_all-acked :
    (now : ℕ) (fp : Str) (fresh : List Finding) (e : Finding)
    → e.status ≡ acked
    → NoneWorse fp e fresh
    → (e' : Finding) × (seen_all now fp fresh (some e) ≡ some e') × (e'.status ≡ acked)
unfolding seen_all refresh
seen_all-acked now fp [] e h w = (e, refl, h)
seen_all-acked now fp (f ∷ fresh) e h w = elim (Bool-cases (str_eq f.fingerprint fp)) [
  | inl q ↦
      rw (q, seen_again-acked now f e h (w.0 q))
        (seen_all-acked now fp fresh (refresh now f e) h w.1)
  | inr q ↦ rw q (seen_all-acked now fp fresh e h w.1)
]

module _ (fresh : List Finding) (now : ℕ) (st : State) (known : st.version ≤ schema_version)
    (d : Distinct st.findings) (fp : Str) (e : Finding)
    (stored : find_by print fp st.findings ≡ some e) where
  -- A stored finding keeps its first-seen time, counts each fresh finding of its fingerprint, never
  -- becomes milder and stays muted if it was, whatever UpsertFindings is given.
  pub upsert_findings-Continues :
      (e' : Finding) × (find_by print fp (findings_of (upsert_findings fresh now (some st)).1)
        ≡ some e')
      × Continues e (mentions fp fresh) e'
  upsert_findings-Continues =
      let (e', found, c) = seen_all-Continues now fp fresh e in
      (e', rw ((upsert_findings_lem fresh now st known d).1 fp, stored) found, c)

  -- An acknowledged finding stays acknowledged as long as no fresh finding of its fingerprint is
  -- more severe.
  pub upsert_findings-acked :
      e.status ≡ acked
      → NoneWorse fp e fresh
      → (e' : Finding) × (find_by print fp (findings_of (upsert_findings fresh now (some st)).1)
          ≡ some e')
        × (e'.status ≡ acked)
  upsert_findings-acked h w =
      let (e', found, s) = seen_all-acked now fp fresh e h w in
      (e', rw ((upsert_findings_lem fresh now st known d).1 fp, stored) found, s)
