-- ===== src/Base/Sort.antt =====
-- Go's sort.SliceStable by a Boolean `less`: insertion sort, which is stable. sort.Slice and
-- sort.Strings are read as it too: they may order equal elements in another way.
use Prim.Native.Nat.{suc}
use mathlib.Core.Path.{◌≡◌, refl, ap, ◌∙◌}
use mathlib.Core.Logic.{◌⊎◌, inl, inr}
use mathlib.Core.Bool.{Bool, true, false}
use mathlib.Core.List.{List, [], ◌∷◌, ◌++◌, Perm}
use mathlib.Core.List.Perm
use native.Mathlib.Omega.{arith}
use api_integrity_tool.Base.Tests.{if◌then◌else◌, Bool-cases}
use api_integrity_tool.Base.Lists.{All, Any, keep, length, All-keep}

module _ {ℓ} {A : Type ℓ} (less : A → A → Bool) where
  unfoldable pub insert_by : A → List A → List A
  insert_by x [] = x ∷ []
  insert_by x (y ∷ ys) = let rest = insert_by x ys in if less y x then y ∷ rest else x ∷ y ∷ ys

  unfoldable pub sort_by : List A → List A
  unfolding insert_by
  sort_by [] = []
  sort_by (x ∷ xs) = insert_by x (sort_by xs)

module _ {ℓ} {A : Type ℓ} (less : A → A → Bool) where
  insert_by-perm : (x : A) (ys : List A) → Perm (insert_by less x ys) (x ∷ ys)
  unfolding insert_by
  insert_by-perm x [] = Perm.refl _
  insert_by-perm x (y ∷ ys) = elim (Bool-cases (less y x)) [
    | inl e ↦ rw e (Perm.trans (Perm.cons y (insert_by-perm x ys)) (Perm.swap _ _ _))
    | inr e ↦ rw e (Perm.refl _)
  ]

  -- Sorting loses and invents nothing.
  pub sort_by-perm : (xs : List A) → Perm (sort_by less xs) xs
  unfolding sort_by
  sort_by-perm [] = Perm.refl _
  sort_by-perm (x ∷ xs) =
      Perm.trans (insert_by-perm x (sort_by less xs)) (Perm.cons x (sort_by-perm xs))

  -- Each element is not above any later one.
  abbrev pub IsSortedBy : List A → Type 0
  IsSortedBy [] = Unit
  IsSortedBy (x ∷ xs) = All (λ y. less y x ≡ false) xs × IsSortedBy xs

-- What a `less` must satisfy on the elements of `P`: it is a strict weak order on them.
pub record Laws {ℓ} {A : Type ℓ} (P : A → Type 0) (less : A → A → Bool) : Type ℓ where
  pub asym : (x y : A) → P x → P y → less x y ≡ true → less y x ≡ false
  pub not_trans :
      (x y z : A) → P x → P y → P z → less y x ≡ false → less z y ≡ false → less z x ≡ false

module _ {ℓ} {A : Type ℓ} (less : A → A → Bool) where
  pub All-insert_by :
      (P : A → Type 0) (x : A) (ys : List A) → P x → All P ys → All P (insert_by less x ys)
  unfolding insert_by
  All-insert_by P x [] px h = (px, tt)
  All-insert_by P x (y ∷ ys) px h = elim (Bool-cases (less y x)) [
    | inl e ↦ rw e (h.0, All-insert_by P x ys px h.1)
    | inr e ↦ rw e (px, h)
  ]

  -- What holds of all elements holds of all after sorting.
  pub All-sort_by : (P : A → Type 0) (xs : List A) → All P xs → All P (sort_by less xs)
  unfolding sort_by
  All-sort_by P [] h = tt
  All-sort_by P (x ∷ xs) h = All-insert_by P x (sort_by less xs) h.0 (All-sort_by P xs h.1)

module _ {ℓ} {A : Type ℓ} (less : A → A → Bool) {P : A → Type 0} (laws : Laws P less) where
  above :
      (x y : A) (ys : List A)
      → P x
      → P y
      → All P ys
      → less y x ≡ false
      → All (λ z. less z y ≡ false) ys
      → All (λ z. less z x ≡ false) ys
  above x y [] px py ps e h = tt
  above x y (z ∷ zs) px py ps e h =
      (laws.not_trans x y z px py ps.0 e h.0, above x y zs px py ps.1 e h.1)

  insert_by-IsSortedBy :
      (x : A) (ys : List A)
      → P x
      → All P ys
      → IsSortedBy less ys
      → IsSortedBy less (insert_by less x ys)
  unfolding insert_by
  insert_by-IsSortedBy x [] px ps h = (tt, tt)
  insert_by-IsSortedBy x (y ∷ ys) px ps h = elim (Bool-cases (less y x)) [
    | inl e ↦ rw e (
      All-insert_by less (λ z. less z y ≡ false) x ys (laws.asym y x ps.0 px e) h.0,
      insert_by-IsSortedBy x ys px ps.1 h.1,
    )
    | inr e ↦ rw e ((e, above x y ys px ps.0 ps.1 e h.0), h)
  ]

  -- The result is in order.
  pub sort_by-IsSortedBy : (xs : List A) → All P xs → IsSortedBy less (sort_by less xs)
  unfolding sort_by
  sort_by-IsSortedBy [] ps = tt
  sort_by-IsSortedBy (x ∷ xs) ps =
      insert_by-IsSortedBy x (sort_by less xs) ps.0 (All-sort_by less P xs ps.1)
        (sort_by-IsSortedBy xs ps.1)

module _ {ℓ} {A : Type ℓ} (less : A → A → Bool) where
  -- A filter keeps the order.
  pub IsSortedBy-keep :
      (p : A → Bool) (xs : List A) → IsSortedBy less xs → IsSortedBy less (keep p xs)
  IsSortedBy-keep p [] h = tt
  IsSortedBy-keep p (x ∷ xs) h = elim (Bool-cases (p x)) [
    | inl e ↦ rw e (All-keep (λ y. less y x ≡ false) p xs h.0, IsSortedBy-keep p xs h.1)
    | inr e ↦ rw e (IsSortedBy-keep p xs h.1)
  ]

  length-keep-insert_by :
      (p : A → Bool) (x : A) (ys : List A)
      → length (keep p (insert_by less x ys)) ≡ length (keep p (x ∷ ys))
  unfolding insert_by
  length-keep-insert_by p x [] = refl
  length-keep-insert_by p x (y ∷ ys) = ground (arith, length-keep-insert_by p x ys)

  -- Sorting keeps the number of elements that pass a test.
  pub length-keep-sort_by :
      (p : A → Bool) (xs : List A) → length (keep p (sort_by less xs)) ≡ length (keep p xs)
  unfolding sort_by
  length-keep-sort_by p [] = refl
  length-keep-sort_by p (x ∷ xs) =
      ground (arith, length-keep-insert_by p x (sort_by less xs), length-keep-sort_by p xs)

  -- An element that is below all others comes first, wherever it stood.
  pub sort_by-append_least :
      (xs : List A) (m : A)
      → All (λ x. less m x ≡ true) xs
      → sort_by less (xs ++ m ∷ []) ≡ m ∷ sort_by less xs
  unfolding sort_by insert_by
  sort_by-append_least [] m h = refl
  sort_by-append_least (x ∷ xs) m h = rw (sort_by-append_least xs m h.1, h.0)

  length-insert_by : (x : A) (ys : List A) → length (insert_by less x ys) ≡ suc (length ys)
  unfolding insert_by
  length-insert_by x [] = refl
  length-insert_by x (y ∷ ys) = ground (arith, length-insert_by x ys)

  pub length-sort_by : (xs : List A) → length (sort_by less xs) ≡ length xs
  unfolding sort_by
  length-sort_by [] = refl
  length-sort_by (x ∷ xs) = length-insert_by x (sort_by less xs) ∙ ap suc (length-sort_by xs)

  with_head :
      (P : A → Type 0) (x y : A) (ys : List A)
      → (P x ⊎ Any P ys → Any P (insert_by less x ys))
      → P x ⊎ (P y ⊎ Any P ys)
      → P y ⊎ Any P (insert_by less x ys)
  with_head P x y ys ih (inl p) = inr (ih (inl p))
  with_head P x y ys ih (inr (inl p)) = inl p
  with_head P x y ys ih (inr (inr p)) = inr (ih (inr p))

  Any-insert_by :
      (P : A → Type 0) (x : A) (ys : List A) → P x ⊎ Any P ys → Any P (insert_by less x ys)
  unfolding insert_by
  Any-insert_by P x [] h = h
  Any-insert_by P x (y ∷ ys) h = elim (Bool-cases (less y x)) [
    | inr e ↦ rw e h
    | inl e ↦ rw e (with_head P x y ys (Any-insert_by P x ys) h)
  ]

  -- What holds of some element holds of some element after sorting.
  pub Any-sort_by : (P : A → Type 0) (xs : List A) → Any P xs → Any P (sort_by less xs)
  unfolding sort_by
  Any-sort_by P [] h = h
  Any-sort_by P (x ∷ xs) (inl h) = Any-insert_by P x (sort_by less xs) (inl h)
  Any-sort_by P (x ∷ xs) (inr h) = Any-insert_by P x (sort_by less xs) (inr (Any-sort_by P xs h))
