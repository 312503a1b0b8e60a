-- ===== src/Store/Findings/Refines.antt =====
-- UpsertFindings, with its index of positions, does what a map from fingerprints would do.
use mathlib.Core.Option
use api_integrity_tool.Base.{
  ℕ, zero, suc, ◌+◌, ◌≤◌, ◌≡◌, refl, sym, ap, ◌∙◌, inl, inr, false, Option, none, some, List, [],
  ◌∷◌, ◌++◌, arith, if◌then◌else◌, Bool-cases, Option-cases, length, Str, str_eq, str_eq_iff,
  str_eq_sym, Lacks, DistinctBy, find_by, DistinctBy-sort_by, find_by-sort_by,
}
use api_integrity_tool.Model.Finding.{Finding, finding_less, sort_findings}
use api_integrity_tool.Store.State.{State, Disk, schema_version, read_locked, normalize, update}
use api_integrity_tool.Store.Findings.{
  FingerprintIndex, index_of, index_findings, seen_again, first_seen, modify_at, Upsert, upsert_one,
  upsert_loop, upsert, upsert_findings,
}

abbrev pub print : Finding → Str
print f = f.fingerprint

abbrev pub Distinct : List Finding → Type 0
Distinct = DistinctBy print

-- The reference: the first finding with the fingerprint is seen again, or a new one is added.
pub merge_one : ℕ → Finding → List Finding → List Finding
merge_one now f [] = first_seen now f ∷ []
merge_one now f (e ∷ es) =
    let rest = merge_one now f es in
    if str_eq e.fingerprint f.fingerprint then seen_again now f e ∷ es else e ∷ rest

pub merge_all : ℕ → List Finding → List Finding → List Finding
unfolding merge_one
merge_all now [] fs = fs
merge_all now (f ∷ fresh) fs = merge_all now fresh (merge_one now f fs)

abbrev position : Str → List Finding → Option ℕ
position fp [] = none
position fp (e ∷ es) =
    let rest = Option.map suc (position fp es) in if str_eq e.fingerprint fp then some 0 else rest

pub print-seen_again : (now : ℕ) (f e : Finding) → (seen_again now f e).fingerprint ≡ e.fingerprint
unfolding seen_again
print-seen_again now f e = ground arith

print-first_seen : (now : ℕ) (f : Finding) → (first_seen now f).fingerprint ≡ f.fingerprint
unfolding first_seen
print-first_seen now f = refl

position-Lacks : (fp : Str) (fs : List Finding) → Lacks print fp fs → position fp fs ≡ none
position-Lacks fp [] h = refl
position-Lacks fp (e ∷ es) h = rw (h.0, position-Lacks fp es h.1)

abbrev shift : ℕ → Option ℕ → Option ℕ → Option ℕ
shift i (some j) old = some (i + j)
shift i none old = old

index_findings-position :
    (fp : Str) (i : ℕ) (fs : List Finding) (m : FingerprintIndex)
    → Distinct fs
    → index_of fp (index_findings i fs m) ≡ shift i (position fp fs) (index_of fp m)
unfolding index_findings index_of
index_findings-position fp i [] m d = refl
index_findings-position fp i (e ∷ es) m d = ground (
  arith,
  index_findings-position fp (i + 1) es ((e.fingerprint, i) ∷ m) d.1,
  position-Lacks e.fingerprint es d.0,
  str_eq_iff e.fingerprint fp,
)

modify_at-merge_one :
    (now : ℕ) (f : Finding) (fs : List Finding) (i : ℕ)
    → position f.fingerprint fs ≡ some i
    → modify_at i (seen_again now f) fs ≡ merge_one now f fs
unfolding modify_at merge_one
modify_at-merge_one now f [] i h = cc
modify_at-merge_one now f (e ∷ es) zero h = ground arith
modify_at-merge_one now f (e ∷ es) (suc i) h = ground (arith, modify_at-merge_one now f es i)

append-merge_one :
    (now : ℕ) (f : Finding) (fs : List Finding)
    → position f.fingerprint fs ≡ none
    → fs ++ first_seen now f ∷ [] ≡ merge_one now f fs
unfolding merge_one
append-merge_one now f [] h = refl
append-merge_one now f (e ∷ es) h = ground (arith, append-merge_one now f es)

position-merge_one :
    (now : ℕ) (f : Finding) (fs : List Finding) (fp : Str)
    → position fp (merge_one now f fs) ≡ (
        if str_eq f.fingerprint fp
        then shift 0 (position fp fs) (some (length fs))
        else position fp fs)
unfolding merge_one
position-merge_one now f [] fp = ground (arith, print-first_seen now f)
position-merge_one now f (e ∷ es) fp = ground (
  arith,
  position-merge_one now f es fp,
  print-seen_again now f e,
  str_eq_iff e.fingerprint f.fingerprint,
  str_eq_iff e.fingerprint fp,
  str_eq_iff f.fingerprint fp,
)

-- The index knows the position of each fingerprint.
abbrev IsIndexed : Upsert → Type 0
IsIndexed u = (fp : Str) → index_of fp u.by_fp ≡ position fp u.findings

module _ (now : ℕ) (f : Finding) (u : Upsert) (h : IsIndexed u) where
  upsert_one-merge_one : (upsert_one now f u).findings ≡ merge_one now f u.findings
  unfolding upsert_one
  upsert_one-merge_one = elim (Option-cases (position f.fingerprint u.findings)) [
    | inl e ↦ rw (h f.fingerprint ∙ e, upsert_one) (append-merge_one now f u.findings e)
    | inr (i, e) ↦ rw (h f.fingerprint ∙ e, upsert_one) (modify_at-merge_one now f u.findings i e)
  ]

  by_fp-upsert_one :
      (fp : Str)
      → index_of fp (upsert_one now f u).by_fp ≡ (
          if str_eq f.fingerprint fp
          then shift 0 (position fp u.findings) (some (length u.findings))
          else position fp u.findings)
  unfolding upsert_one index_of
  by_fp-upsert_one fp = elim (Option-cases (position f.fingerprint u.findings)) [
    | inl e ↦
        rw (h f.fingerprint ∙ e, upsert_one) (ground (arith, h fp, str_eq_iff f.fingerprint fp))
    | inr (i, e) ↦
        rw (h f.fingerprint ∙ e, upsert_one) (ground (arith, h fp, str_eq_iff f.fingerprint fp))
  ]

  upsert_one-IsIndexed : IsIndexed (upsert_one now f u)
  upsert_one-IsIndexed fp =
      by_fp-upsert_one fp
      ∙ sym (position-merge_one now f u.findings fp)
      ∙ ap (position fp) (sym upsert_one-merge_one)

upsert_loop-merge_all :
    (now : ℕ) (fresh : List Finding) (u : Upsert)
    → IsIndexed u
    → (upsert_loop now fresh u).findings ≡ merge_all now fresh u.findings
unfolding upsert_loop merge_all
upsert_loop-merge_all now [] u h = refl
upsert_loop-merge_all now (f ∷ fresh) u h =
    upsert_loop-merge_all now fresh (upsert_one now f u) (upsert_one-IsIndexed now f u h)
    ∙ ap (merge_all now fresh) (upsert_one-merge_one now f u h)

-- From distinct fingerprints, the loop over the fresh findings and its index of positions compute
-- the reference: each fresh finding updates the stored one of its fingerprint or is added.
pub upsert-merge_all :
    (now : ℕ) (fresh : List Finding) (st : State)
    → Distinct st.findings
    → (upsert now fresh st).0.findings ≡ merge_all now fresh st.findings
unfolding upsert index_of
upsert-merge_all now fresh st d =
    upsert_loop-merge_all now fresh _
      λ fp. index_findings-position fp 0 st.findings [] d ∙ shift_zero (position fp st.findings)
  where
    shift_zero : (o : Option ℕ) → shift 0 o none ≡ o
    shift_zero none = refl
    shift_zero (some j) = ap some (omega arith)

Lacks-merge_one :
    (now : ℕ) (f : Finding) (k : Str) (fs : List Finding)
    → str_eq f.fingerprint k ≡ false
    → Lacks print k fs
    → Lacks print k (merge_one now f fs)
unfolding merge_one first_seen
Lacks-merge_one now f k [] h l = (h, tt)
Lacks-merge_one now f k (e ∷ es) h l = elim (Bool-cases (str_eq e.fingerprint f.fingerprint)) [
  | inl q ↦ rw q (rw print-seen_again l.0, l.1)
  | inr q ↦ rw q (l.0, Lacks-merge_one now f k es h l.1)
]

Distinct-merge_one :
    (now : ℕ) (f : Finding) (fs : List Finding) → Distinct fs → Distinct (merge_one now f fs)
unfolding merge_one
Distinct-merge_one now f [] d = (tt, tt)
Distinct-merge_one now f (e ∷ es) d = elim (Bool-cases (str_eq e.fingerprint f.fingerprint)) [
  | inl q ↦ rw q (rw print-seen_again d)
  | inr q ↦ rw q (
    Lacks-merge_one now f e.fingerprint es (str_eq_sym f.fingerprint e.fingerprint ∙ q) d.0,
    Distinct-merge_one now f es d.1,
  )
]

pub Distinct-merge_all :
    (now : ℕ) (fresh fs : List Finding) → Distinct fs → Distinct (merge_all now fresh fs)
unfolding merge_all
Distinct-merge_all now [] fs d = d
Distinct-merge_all now (f ∷ fresh) fs d =
    Distinct-merge_all now fresh (merge_one now f fs) (Distinct-merge_one now f fs d)

-- What one fresh finding makes of what is stored under its fingerprint.
abbrev pub seen : ℕ → Finding → Option Finding → Option Finding
seen now f none = some (first_seen now f)
seen now f (some e) = some (seen_again now f e)

-- What a run of fresh findings makes of what is stored under the fingerprint `fp`.
unfoldable pub seen_all : ℕ → Str → List Finding → Option Finding → Option Finding
seen_all now fp [] o = o
seen_all now fp (f ∷ fresh) o =
    seen_all now fp fresh (if str_eq f.fingerprint fp then seen now f o else o)

find_by-merge_one :
    (now : ℕ) (f : Finding) (fp : Str) (fs : List Finding)
    → find_by print fp (merge_one now f fs)
      ≡ (if str_eq f.fingerprint fp then seen now f (find_by print fp fs) else find_by print fp fs)
unfolding merge_one
find_by-merge_one now f fp [] = ground (arith, print-first_seen now f)
find_by-merge_one now f fp (e ∷ es) = ground (
  arith,
  find_by-merge_one now f fp es,
  print-seen_again now f e,
  str_eq_iff e.fingerprint f.fingerprint,
  str_eq_iff e.fingerprint fp,
  str_eq_iff f.fingerprint fp,
)

find_by-merge_all :
    (now : ℕ) (fresh : List Finding) (fp : Str) (fs : List Finding)
    → find_by print fp (merge_all now fresh fs) ≡ seen_all now fp fresh (find_by print fp fs)
unfolding merge_all seen_all
find_by-merge_all now [] fp fs = refl
find_by-merge_all now (f ∷ fresh) fp fs =
    find_by-merge_all now fresh fp (merge_one now f fs)
    ∙ ap (seen_all now fp fresh) (find_by-merge_one now f fp fs)

-- The findings of a state file.
abbrev pub findings_of : Disk → List Finding
findings_of none = []
findings_of (some st) = st.findings

module _ (fresh : List Finding) (now : ℕ) (st : State) (known : st.version ≤ schema_version)
    (d : Distinct st.findings) where
  findings-upsert_findings :
      findings_of (upsert_findings fresh now (some st)).1
      ≡ sort_findings (merge_all now fresh st.findings)
  unfolding upsert_findings update read_locked normalize
  findings-upsert_findings = ground (arith, ap sort_findings (upsert-merge_all now fresh st d))

  -- From a readable state with distinct fingerprints, UpsertFindings leaves distinct fingerprints,
  -- and under each fingerprint what its fresh findings, one after the other, make of what was
  -- stored there: nothing is lost, doubled or attributed to another finding.
  pub upsert_findings_lem :
      Distinct (findings_of (upsert_findings fresh now (some st)).1)
      × ((fp : Str)
          → find_by print fp (findings_of (upsert_findings fresh now (some st)).1)
            ≡ seen_all now fp fresh (find_by print fp st.findings))
  unfolding sort_findings
  upsert_findings_lem = (
    rw findings-upsert_findings (DistinctBy-sort_by print finding_less merged distinct),
    λ fp. rw findings-upsert_findings (
        find_by-sort_by print finding_less fp merged distinct
        ∙ find_by-merge_all now fresh fp st.findings),
  )
    where
      merged : List Finding
      merged = merge_all now fresh st.findings

      distinct : Distinct merged
      distinct = Distinct-merge_all now fresh st.findings d
