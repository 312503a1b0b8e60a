-- ===== src/Base/Distinct.antt =====
-- Lists whose elements have different keys, and lookup by key, which does not see their order.
use mathlib.Core.Path.{◌≡◌, refl, ◌∙◌, ap}
use mathlib.Core.Logic.{inl, inr}
use mathlib.Core.Bool.{Bool, false}
use mathlib.Core.Option.{Option, none, some}
use mathlib.Core.List.{List, [], ◌∷◌}
use native.Mathlib.Omega.{arith}
use api_integrity_tool.Base.Tests.{if◌then◌else◌, Bool-cases}
use api_integrity_tool.Base.Lists.{All, keep, All-keep}
use api_integrity_tool.Base.Text.{Str, str_eq, str_eq_iff}
use api_integrity_tool.Base.Sort.{insert_by, sort_by, All-insert_by, All-sort_by}

pub str_eq_sym : (s t : Str) → str_eq s t ≡ str_eq t s
str_eq_sym s t = ground (arith, str_eq_iff s t, str_eq_iff t s)

module _ {ℓ} {A : Type ℓ} (key : A → Str) where
  -- No element of the list has the key `k`.
  abbrev pub Lacks : Str → List A → Type 0
  Lacks k = All (λ x. str_eq (key x) k ≡ false)

  abbrev pub DistinctBy : List A → Type 0
  DistinctBy [] = Unit
  DistinctBy (x ∷ xs) = Lacks (key x) xs × DistinctBy xs

  -- The first element with the key `k`.
  abbrev pub find_by : Str → List A → Option A
  find_by k [] = none
  find_by k (x ∷ xs) = let rest = find_by k xs in if str_eq (key x) k then some x else rest

  pub find_by-Lacks : (k : Str) (xs : List A) → Lacks k xs → find_by k xs ≡ none
  find_by-Lacks k [] h = refl
  find_by-Lacks k (x ∷ xs) h = rw h.0 (find_by-Lacks k xs h.1)

  pub Lacks-find_by : (k : Str) (xs : List A) → find_by k xs ≡ none → Lacks k xs
  Lacks-find_by k [] h = tt
  Lacks-find_by k (x ∷ xs) h = elim (Bool-cases (str_eq (key x) k)) [
    | inl e ↦ absurd (cc (rw e at h))
    | inr e ↦ (e, Lacks-find_by k xs (rw e at h))
  ]

  find_by-insert_by :
      (less : A → A → Bool) (k : Str) (x : A) (ys : List A)
      → Lacks (key x) ys
      → find_by k (insert_by less x ys) ≡ find_by k (x ∷ ys)
  unfolding insert_by
  find_by-insert_by less k x [] h = refl
  find_by-insert_by less k x (y ∷ ys) h = ground (
    arith,
    find_by-insert_by less k x ys h.1,
    str_eq_iff (key x) k,
    str_eq_iff (key y) k,
    str_eq_iff (key y) (key x),
  )

  DistinctBy-insert_by :
      (less : A → A → Bool) (x : A) (ys : List A)
      → Lacks (key x) ys
      → DistinctBy ys
      → DistinctBy (insert_by less x ys)
  unfolding insert_by
  DistinctBy-insert_by less x [] h d = (tt, tt)
  DistinctBy-insert_by less x (y ∷ ys) h d = elim (Bool-cases (less y x)) [
    | inl e ↦ rw e (
      All-insert_by less (λ z. str_eq (key z) (key y) ≡ false) x ys
          (str_eq_sym (key x) (key y) ∙ h.0) d.0,
      DistinctBy-insert_by less x ys h.1 d.1,
    )
    | inr e ↦ rw e (h, d)
  ]

  -- Sorting keeps the keys different, and does not change what a lookup finds.
  pub DistinctBy-sort_by :
      (less : A → A → Bool) (xs : List A) → DistinctBy xs → DistinctBy (sort_by less xs)
  unfolding sort_by
  DistinctBy-sort_by less [] d = tt
  DistinctBy-sort_by less (x ∷ xs) d =
      DistinctBy-insert_by less x (sort_by less xs)
        (All-sort_by less (λ z. str_eq (key z) (key x) ≡ false) xs d.0)
        (DistinctBy-sort_by less xs d.1)

  pub find_by-sort_by :
      (less : A → A → Bool) (k : Str) (xs : List A)
      → DistinctBy xs
      → find_by k (sort_by less xs) ≡ find_by k xs
  unfolding sort_by
  find_by-sort_by less k [] d = refl
  find_by-sort_by less k (x ∷ xs) d =
      find_by-insert_by less k x (sort_by less xs)
        (All-sort_by less (λ z. str_eq (key z) (key x) ≡ false) xs d.0)
      ∙ ap (λ o. if str_eq (key x) k then some x else o) (find_by-sort_by less k xs d.1)

  pub DistinctBy-keep : (p : A → Bool) (xs : List A) → DistinctBy xs → DistinctBy (keep p xs)
  DistinctBy-keep p [] d = tt
  DistinctBy-keep p (x ∷ xs) d = elim (Bool-cases (p x)) [
    | inl e ↦ rw e (All-keep _ p xs d.0, DistinctBy-keep p xs d.1)
    | inr e ↦ rw e (DistinctBy-keep p xs d.1)
  ]
