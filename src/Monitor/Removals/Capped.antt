-- ===== src/Monitor/Removals/Capped.antt =====
-- analyzeDiff of internal/monitor/analyzers.go: what it may report.
use api_integrity_tool.Base.{
  ℕ, suc, ◌+◌, ◌≤◌, ◌≡◌, refl, ap, Bool, true, false, List, [], ◌∷◌, if◌then◌else◌, All, map, leb,
  Str, str_eq, str_eq_iff, arith, subst,
}
use api_integrity_tool.Model.Severity.{risky, rank}
use api_integrity_tool.Monitor.Score.{Floats, cap_lem}
use api_integrity_tool.Monitor.Source.{FileChange}
use api_integrity_tool.Monitor.Match.{Target}
use api_integrity_tool.Monitor.Removals.{
  Hit, count_id, cap_hits, max_per_endpoint, Removal, rated, removal, added_ids, removed_hits,
  analyze_diff,
}

abbrev pub id_of : Hit → Str
id_of h = h.target.id

count_id_same :
    (id i : Str) (ids : List Str) → (str_eq i id ≡ true → count_id i ids ≡ count_id id ids)
count_id_same id i ids e = ap (λ (s : Str). count_id s ids) ((str_eq_iff i id).0 e)

-- A count that goes up with one more report of an id, or stays.
count_step :
    (same : Bool) (a r : ℕ)
    → (same ≡ true → suc a ≤ 3)
    → a ≤ 3
    → ((if same then suc a else a) ≤ 3 → (if same then suc a else a) + r ≤ 3)
    → a + (if same then suc r else r) ≤ 3
count_step true a r k h ih = omega (arith, ih (k refl))
count_step false a r k h ih = ih h

count_choice :
    (id : Str) (n : ℕ) (full : Bool) (skip taken : List Hit)
    → n + count_id id (map id_of skip) ≤ 3
    → (full ≡ false → n + count_id id (map id_of taken) ≤ 3)
    → n + count_id id (map id_of (if full then skip else taken)) ≤ 3
count_choice id n true skip taken f g = f
count_choice id n false skip taken f g = g refl

below_cap : (n : ℕ) → leb max_per_endpoint n ≡ false → suc n ≤ 3
below_cap n h = ground (arith, h)

cap_hits-count :
    (id : Str) (ids : List Str) (hits : List Hit)
    → count_id id ids ≤ 3
    → count_id id ids + count_id id (map id_of (cap_hits ids hits)) ≤ 3
unfolding cap_hits count_id
cap_hits-count id ids [] h = omega (arith, h)
cap_hits-count id ids (x ∷ hits) h =
    let full = leb max_per_endpoint (count_id x.target.id ids) in
    count_choice id (count_id id ids) full (cap_hits ids hits)
      (x ∷ cap_hits (x.target.id ∷ ids) hits) (cap_hits-count id ids hits h)
      (λ e.
        count_step (str_eq x.target.id id) (count_id id ids)
          (count_id id (map id_of (cap_hits (x.target.id ∷ ids) hits)))
          (λ f.
            subst (λ (n : ℕ). suc n ≤ 3) (count_id_same id x.target.id ids f)
              (below_cap (count_id x.target.id ids) e))
          h (cap_hits-count id (x.target.id ∷ ids) hits))

module _ (R : Floats) where
  removed_ids :
      (added : List Str) (hits : List Hit)
      → map (λ (r : Removal R). r.target.id) (map (removal R added) hits) ≡ map id_of hits
  unfolding removal
  removed_ids added [] = refl
  removed_ids added (h ∷ hits) = ap (λ (ids : List Str). h.target.id ∷ ids) (removed_ids added hits)

  removals-All :
      (added : List Str) (hits : List Hit)
      → All (λ (r : Removal R). rank risky ≤ rank r.severity) (map (removal R added) hits)
  unfolding removal
  removals-All added [] = tt
  removals-All added (h ∷ hits) = ((cap_lem (rated R added h).0 risky).2, removals-All added hits)

  -- For any arithmetic of confidences, the search of removed lines reports each endpoint at most three
  -- times, whatever the size of the change, and nothing that it reports is breaking.
  pub analyze_diff_lem :
      (ts : List Target) (files : List FileChange)
      → ((id : Str)
          → count_id id (map (λ (r : Removal R). r.target.id) (analyze_diff R ts files)) ≤ 3)
        × All (λ (r : Removal R). rank risky ≤ rank r.severity) (analyze_diff R ts files)
  unfolding analyze_diff count_id
  analyze_diff_lem ts files =
      let hits = cap_hits [] (removed_hits ts files) in
      (
        λ id. rw (removed_ids (added_ids ts files) hits) (
            let most = cap_hits-count id [] (removed_hits ts files) (omega arith) in
            omega (arith, most)),
        removals-All (added_ids ts files) hits,
      )
