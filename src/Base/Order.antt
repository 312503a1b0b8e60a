-- ===== src/Base/Order.antt =====
-- Total orders given by Boolean tests, and comparison by a key with a tie break: from these come
-- the laws of the `less` functions that the program sorts by.
use mathlib.Core.Path.{◌≡◌}
use mathlib.Core.Logic.{◌↔◌}
use mathlib.Core.Bool.{Bool, true, false}
use native.Mathlib.Omega.{arith}
use api_integrity_tool.Base.Tests.{if◌then◌else◌, ltb, ◌==◌, ==_iff}
use api_integrity_tool.Base.Text.{
  str_eq, str_lt, str_eq_iff, str_lt_irrefl, str_lt_trans, str_lt_total,
}
use api_integrity_tool.Base.Int.{
  int_eq, int_eq_iff, int_lt, int_lt_irrefl, int_lt_trans, int_lt_total,
}
use api_integrity_tool.Base.Sort.{Laws}

-- `eq` and `lt` order the values of `Q`.
pub record IsOrder {ℓ} {K : Type ℓ} (Q : K → Type 0) (eq lt : K → K → Bool) : Type ℓ where
  pub eq_iff : (a b : K) → (eq a b ≡ true) ↔ (a ≡ b)
  pub irrefl : (a : K) → lt a a ≡ false
  pub trans : (a b c : K) → lt a b ≡ true → lt b c ≡ true → lt a c ≡ true
  pub total : (a b : K) → Q a → Q b → lt a b ≡ false → lt b a ≡ false → a ≡ b

abbrev pub Always {ℓ} : {K : Type ℓ} → K → Type 0
Always k = Unit

pub str-IsOrder : IsOrder Always str_eq str_lt
str-IsOrder = record {
  eq_iff = str_eq_iff;
  irrefl = str_lt_irrefl;
  trans = str_lt_trans;
  total = λ a b _ _. str_lt_total a b;
}

pub nat-IsOrder : IsOrder Always ◌==◌ ltb
nat-IsOrder = record {
  eq_iff = ==_iff;
  irrefl = λ a. ground arith;
  trans = λ a b c h k. ground arith;
  total = λ a b _ _ h k. ground arith;
}

pub int-IsOrder : IsOrder Always int_eq int_lt
int-IsOrder = record {
  eq_iff = int_eq_iff;
  irrefl = int_lt_irrefl;
  trans = int_lt_trans;
  total = λ a b _ _. int_lt_total a b;
}

-- a > b
abbrev pub flip {ℓ} : {K : Type ℓ} → (K → K → Bool) → K → K → Bool
flip lt a b = lt b a

pub flip-IsOrder {ℓ} :
    {K : Type ℓ} {Q : K → Type 0} (eq lt : K → K → Bool) → IsOrder Q eq lt → IsOrder Q eq (flip lt)
flip-IsOrder eq lt o = record {
  eq_iff = o.eq_iff;
  irrefl = o.irrefl;
  trans = λ a b c h k. o.trans c b a k h;
  total = λ a b qa qb h k. o.total a b qa qb k h;
}

-- `if a.k != b.k { return a.k < b.k }; return rest(a, b)`
abbrev pub by_key {ℓ κ} :
    {A : Type ℓ} {K : Type κ}
    → (K → K → Bool)
    → (K → K → Bool)
    → (A → K)
    → (A → A → Bool)
    → A
    → A
    → Bool
by_key eq lt key rest a b = if eq (key a) (key b) then rest a b else lt (key a) (key b)

module _ {ℓ} {A : Type ℓ} {K : Type 0} {P : A → Type 0} {Q : K → Type 0} {eq lt : K → K → Bool}
    (o : IsOrder Q eq lt) (key : A → K) (inside : (a : A) → P a → Q (key a)) {rest : A → A → Bool}
    (r : Laws P rest) where
  asym :
      (x y : A) → P x → P y → by_key eq lt key rest x y ≡ true → by_key eq lt key rest y x ≡ false
  asym x y px py h = ground (
    arith,
    o.eq_iff (key x) (key y),
    o.eq_iff (key y) (key x),
    o.trans (key x) (key y) (key x),
    o.irrefl (key x),
    r.asym x y px py,
  )

  not_trans :
      (x y z : A)
      → P x
      → P y
      → P z
      → by_key eq lt key rest y x ≡ false
      → by_key eq lt key rest z y ≡ false
      → by_key eq lt key rest z x ≡ false
  not_trans x y z px py pz h k = ground (
    arith,
    o.eq_iff (key y) (key x),
    o.eq_iff (key z) (key y),
    o.eq_iff (key z) (key x),
    o.total (key x) (key y) (inside x px) (inside y py),
    o.trans (key z) (key x) (key y),
    r.not_trans x y z px py pz,
  )

  pub Laws-by_key : Laws P (by_key eq lt key rest)
  Laws-by_key = record { asym = asym; not_trans = not_trans }

module _ {ℓ} {A : Type ℓ} {K : Type 0} {P : A → Type 0} {Q : K → Type 0} {eq lt : K → K → Bool}
    (o : IsOrder Q eq lt) (key : A → K) (inside : (a : A) → P a → Q (key a)) where
  -- Comparison by a key with no tie break.
  pub Laws-key : Laws P (λ a b. lt (key a) (key b))
  Laws-key = record {
    asym = λ x y px py h. ground (arith, o.trans (key x) (key y) (key x), o.irrefl (key x));
    not_trans = λ x y z px py pz h k. ground (
      arith,
      o.total (key x) (key y) (inside x px) (inside y py),
      o.trans (key z) (key x) (key y),
    );
  }
