-- ===== src/Monitor/Score.antt =====
-- internal/monitor/score.go: the confidence of a finding and the severity that it leaves. The float64
-- operations of the language are a parameter, and the theorems hold for any of them.
use api_integrity_tool.Base.{
  ◌⊎◌, ◌≢◌, inl, inr, Bool-cases, ℕ, ◌≡◌, ◌↔◌, ◌≤◌, ◌⊎◌, Bool, false, ◌&&◌, if◌then◌else◌, arith,
  ltb, Str, codes, has_prefix,
}
use api_integrity_tool.Model.Severity.{Severity, breaking, risky, info, other, rank, severity_eq}

-- What the code uses of float64.
pub record Floats : Type 1 where
  pub F : Type 0
  pub hundredths : ℕ → F
  pub times : F → F → F
  pub plus : F → F → F
  pub over : F → F → F
  pub less : F → F → Bool
  pub at_most : F → F → Bool
  -- the conversion to int and back
  pub truncated : F → F

-- The constants are literals with two decimals.
abbrev pub demote_breaking_below : ℕ
demote_breaking_below = 70

abbrev pub demote_risky_below : ℕ
demote_risky_below = 40

-- Cap
unfoldable pub cap : Severity → Severity → Severity
unfolding rank
cap sev ceiling = if ltb (rank sev) (rank ceiling) then ceiling else sev

-- SignalPrior, in hundredths
unfoldable pub signal_prior : Str → ℕ
unfolding has_prefix
signal_prior signal =
    if has_prefix signal (codes "openapi.")
    then 95
    else if has_prefix signal (codes "route.")
    then 85
    else if has_prefix signal (codes "diff.")
    then 60
    else if has_prefix signal (codes "text.")
    then 45
    else if has_prefix signal (codes "release.")
    then 35
    else if has_prefix signal (codes "changelog.")
    then 35
    else 50

module _ (R : Floats) where
  -- What stands for a factor that is not positive.
  unfoldable pub or_default : ℕ → R.F → R.F
  or_default default x = if R.at_most x (R.hundredths 0) then R.hundredths default else x

  -- The confidence before it is rounded.
  unfoldable pub confidence : Str → R.F → R.F → R.F → R.F
  unfolding or_default signal_prior
  confidence signal match_quality file_weight index_confidence =
      R.times
        (R.times (R.times (R.hundredths (signal_prior signal)) match_quality)
          (or_default 100 file_weight))
        (or_default 50 index_confidence)

  -- The two demotions of Rate.
  unfoldable pub demote_breaking : R.F → Severity → Severity
  unfolding severity_eq
  demote_breaking conf sev =
      if severity_eq sev breaking && R.less conf (R.hundredths demote_breaking_below)
      then risky
      else sev

  unfoldable pub demote_risky : R.F → Severity → Severity
  unfolding severity_eq
  demote_risky conf sev =
      if severity_eq sev risky && R.less conf (R.hundredths demote_risky_below) then info else sev

  -- round2
  unfoldable pub round2 : R.F → R.F
  round2 f =
      R.over (R.truncated (R.plus (R.times f (R.hundredths 10000)) (R.hundredths 50)))
        (R.hundredths 10000)

  -- Rate
  unfoldable pub rate : Str → Severity → R.F → R.F → R.F → Severity × R.F
  unfolding confidence demote_breaking demote_risky round2
  rate signal proposed match_quality file_weight index_confidence =
      let conf = confidence signal match_quality file_weight index_confidence in
      (demote_risky conf (demote_breaking conf proposed), round2 conf)

  demote_rank :
      (conf : R.F) (s : Severity) → rank s ≤ rank (demote_risky conf (demote_breaking conf s))
  unfolding demote_risky demote_breaking rank severity_eq
  demote_rank conf breaking = ground arith
  demote_rank conf risky = ground arith
  demote_rank conf info = ground arith
  demote_rank conf (other s) = ground arith

  demote-breaking :
      (conf : R.F) (s : Severity)
      → (demote_risky conf (demote_breaking conf s) ≡ breaking)
        ↔ (s ≡ breaking) × (R.less conf (R.hundredths demote_breaking_below) ≡ false)
  unfolding demote_risky demote_breaking severity_eq
  demote-breaking conf breaking = ground arith
  demote-breaking conf risky = ground arith
  demote-breaking conf info = ground arith
  demote-breaking conf (other s) = ground arith

  demote-risky :
      (conf : R.F) (s : Severity)
      → demote_risky conf (demote_breaking conf s) ≡ risky
      → R.less conf (R.hundredths demote_risky_below) ≡ false
  unfolding demote_risky demote_breaking severity_eq
  demote-risky conf breaking = ground arith
  demote-risky conf risky = ground arith
  demote-risky conf info = ground arith
  demote-risky conf (other s) = ground arith

  ends_risky :
      (conf : R.F) (s : Severity)
      → (demote_risky conf (demote_breaking conf s) ≢ risky)
        ⊎ (R.less conf (R.hundredths demote_risky_below) ≡ false)
  ends_risky conf s = elim (Bool-cases (R.less conf (R.hundredths demote_risky_below))) [
    | inr e ↦ inr e
    | inl e ↦ inl (λ h. cc (e, demote-risky conf s h))
  ]

  -- A finding is never promoted. It ends as breaking exactly when it was proposed as breaking with at
  -- least the confidence for that, and as risky only with at least the confidence for risky.
  pub rate_lem :
      (signal : Str) (proposed : Severity) (match_quality file_weight index_confidence : R.F)
      → let conf = confidence signal match_quality file_weight index_confidence in
        let final = (rate signal proposed match_quality file_weight index_confidence).0 in
        (rank proposed ≤ rank final)
        × ((final ≡ breaking)
            ↔ (proposed ≡ breaking) × (R.less conf (R.hundredths demote_breaking_below) ≡ false))
        × ((final ≢ risky) ⊎ (R.less conf (R.hundredths demote_risky_below) ≡ false))
  unfolding rate
  rate_lem signal proposed match_quality file_weight index_confidence =
      let conf = confidence signal match_quality file_weight index_confidence in
      (demote_rank conf proposed, demote-breaking conf proposed, ends_risky conf proposed)

-- Cap gives one of its two severities, and none above either: it is no more severe than its ceiling
-- and than the severity itself.
pub cap_lem :
    (sev ceiling : Severity)
    → ((cap sev ceiling ≡ sev) ⊎ (cap sev ceiling ≡ ceiling))
      × (rank sev ≤ rank (cap sev ceiling))
      × (rank ceiling ≤ rank (cap sev ceiling))
unfolding cap
cap_lem sev ceiling = ground arith
