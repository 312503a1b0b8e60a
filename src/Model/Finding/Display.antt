-- ===== src/Model/Finding/Display.antt =====
-- The order and the tally of findings.
use api_integrity_tool.Base.{
  ◌<◌, ◌⊎◌, inl, inr, true, false, Bool, str_lt, sort_by, All-sort_by, keep, ℕ, if◌then◌else◌, ◌==◌,
  ltb,
}
use api_integrity_tool.Model.Severity.{rank, severity_eq, breaking, risky}
use api_integrity_tool.Base.{
  ◌+◌, ◌≡◌, refl, List, [], ◌∷◌, Perm, arith, length, All, IsOrder, Laws, IsSortedBy, Always, flip,
  flip-IsOrder, Laws-by_key, Laws-key, str-IsOrder, nat-IsOrder, sort_by-perm, sort_by-IsSortedBy,
}
use api_integrity_tool.Model.Severity.{Severity, severity-IsOrder, IsKnown}
use api_integrity_tool.Model.Finding.{
  Finding, Counts, bool_eq, bool_lt, finding_less, sort_findings, count_one, count_from,
  count_by_severity,
}

bool-IsOrder : IsOrder Always bool_eq (flip bool_lt)
unfolding bool_eq bool_lt
bool-IsOrder = record {
  eq_iff = λ a b. ground arith;
  irrefl = λ a. ground arith;
  trans = λ a b c h k. ground arith;
  total = λ a b _ _ h k. ground arith;
}

-- All findings have one of the three severities.
abbrev pub HaveKnownSeverity : List Finding → Type 0
HaveKnownSeverity = All (λ f. IsKnown f.severity)

pub finding_less-Laws : Laws (λ (f : Finding). IsKnown f.severity) finding_less
unfolding finding_less
finding_less-Laws =
    Laws-by_key severity-IsOrder (λ f. f.severity) (λ a p. p)
      (Laws-by_key bool-IsOrder (λ f. f.corroborated) (λ a p. tt)
        (Laws-by_key (flip-IsOrder _ _ nat-IsOrder) (λ f. f.last_seen_at) (λ a p. tt)
          (Laws-key str-IsOrder (λ f. f.id) (λ a p. tt))))

-- The order in which findings are shown, written out: the more severe first; of one severity the
-- corroborated ones; of those the one seen last; and at last the one of the smaller id.
abbrev pub MayPrecede : Finding → Finding → Type 0
MayPrecede f g =
    (rank f.severity < rank g.severity)
    ⊎ ((rank f.severity ≡ rank g.severity)
        × (((f.corroborated ≡ true) × (g.corroborated ≡ false))
            ⊎ ((f.corroborated ≡ g.corroborated)
                × ((g.last_seen_at < f.last_seen_at)
                    ⊎ ((f.last_seen_at ≡ g.last_seen_at) × (str_lt g.id f.id ≡ false))))))

-- Each finding may precede all that follow it.
abbrev pub IsShownInOrder : List Finding → Type 0
IsShownInOrder [] = Unit
IsShownInOrder (f ∷ fs) = All (MayPrecede f) fs × IsShownInOrder fs

by_time :
    (m n : ℕ) (b : Bool)
    → (if n == m then b else ltb m n) ≡ false
    → (n < m) ⊎ ((m ≡ n) × (b ≡ false))
by_time m n b e = ground (arith, e)

by_corroboration :
    (c d : Bool) (m n : ℕ) (b : Bool)
    → (if bool_eq d c then (if n == m then b else ltb m n) else bool_lt c d) ≡ false
    → ((c ≡ true) × (d ≡ false)) ⊎ ((c ≡ d) × ((n < m) ⊎ ((m ≡ n) × (b ≡ false))))
unfolding bool_eq bool_lt
by_corroboration true true m n b e = inr (refl, by_time m n b e)
by_corroboration false false m n b e = inr (refl, by_time m n b e)
by_corroboration true false m n b e = inl (refl, refl)
by_corroboration false true m n b e = cc

-- The ranks of two constants that are not told apart by `less`.
by_rank :
    (s t : Severity) (b : Bool)
    → IsKnown s
    → IsKnown t
    → (if severity_eq t s then b else ltb (rank t) (rank s)) ≡ false
    → (rank s < rank t) ⊎ ((rank s ≡ rank t) × (b ≡ false))
unfolding severity_eq rank
by_rank (Severity.other s) t b h k e = absurd h
by_rank s (Severity.other t) b h k e = absurd k
by_rank breaking t b h k e = ground (arith, e)
by_rank risky t b h k e = ground (arith, e)
by_rank Severity.info t b h k e = ground (arith, e)

not_less-MayPrecede :
    (f g : Finding)
    → IsKnown f.severity
    → IsKnown g.severity
    → finding_less g f ≡ false
    → MayPrecede f g
unfolding finding_less
not_less-MayPrecede f g h k e =
    let rest =
      if bool_eq g.corroborated f.corroborated
      then if g.last_seen_at == f.last_seen_at
        then str_lt g.id f.id
        else ltb f.last_seen_at g.last_seen_at
      else bool_lt f.corroborated g.corroborated in
    elim (by_rank f.severity g.severity rest h k e) [
      | inl below ↦ inl below
      | inr (same, r) ↦ inr (
        same,
        by_corroboration f.corroborated g.corroborated f.last_seen_at g.last_seen_at
            (str_lt g.id f.id) r,
      )
    ]

All-after :
    (f : Finding) (fs : List Finding)
    → IsKnown f.severity
    → HaveKnownSeverity fs
    → All (λ g. finding_less g f ≡ false) fs
    → All (MayPrecede f) fs
All-after f [] h k e = tt
All-after f (g ∷ fs) h k e = (not_less-MayPrecede f g h k.0 e.0, All-after f fs h k.1 e.1)

sorted-IsShownInOrder :
    (fs : List Finding) → HaveKnownSeverity fs → IsSortedBy finding_less fs → IsShownInOrder fs
sorted-IsShownInOrder [] h k = tt
sorted-IsShownInOrder (f ∷ fs) h k = (All-after f fs h.0 h.1 k.0, sorted-IsShownInOrder fs h.1 k.1)

-- SortFindings keeps exactly the findings it is given, and where each severity is one of the three
-- constants it shows the more severe first, of one severity the corroborated ones first, of those
-- the ones seen last first, and of those the ones with the smaller id first.
pub sort_findings_lem :
    (fs : List Finding)
    → HaveKnownSeverity fs
    → Perm (sort_findings fs) fs × IsShownInOrder (sort_findings fs)
unfolding sort_findings
sort_findings_lem fs h = (
  sort_by-perm finding_less fs,
  sorted-IsShownInOrder (sort_by finding_less fs) (All-sort_by finding_less _ fs h)
      (sort_by-IsSortedBy finding_less finding_less-Laws fs h),
)

-- Counting on from a tally, as counts of the list.
count_from-counts :
    (c : Counts) (fs : List Finding)
    → ((count_from c fs).breaking
        ≡ c.breaking + length (keep (λ f. severity_eq f.severity breaking) fs))
      × ((count_from c fs).risky ≡ c.risky + length (keep (λ f. severity_eq f.severity risky) fs))
      × ((count_from c fs).total ≡ c.total + length fs)
      × ((count_from c fs).breaking + (count_from c fs).risky + (count_from c fs).info + c.total
          ≡ c.breaking + c.risky + c.info + (count_from c fs).total)
unfolding count_from count_one severity_eq
count_from-counts c [] = omega arith
count_from-counts c (f ∷ fs) =
    let ih = count_from-counts (count_one f.severity c) fs in ground (arith, ih)

-- CountBySeverity counts the breaking findings as breaking, the risky ones as risky and every other one
-- as information, and its total is the number of findings.
pub count_by_severity_lem :
    (fs : List Finding)
    → ((count_by_severity fs).breaking ≡ length (keep (λ f. severity_eq f.severity breaking) fs))
      × ((count_by_severity fs).risky ≡ length (keep (λ f. severity_eq f.severity risky) fs))
      × ((count_by_severity fs).breaking
            + (count_by_severity fs).risky
            + (count_by_severity fs).info
          ≡ length fs)
      × ((count_by_severity fs).total ≡ length fs)
unfolding count_by_severity
count_by_severity_lem fs =
    omega (arith, count_from-counts (record { breaking = 0; risky = 0; info = 0; total = 0 }) fs)
