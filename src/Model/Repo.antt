-- ===== src/Model/Repo.antt =====
-- `RepoRef`, `Role` and `Upstream` of internal/model/model.go.
use api_integrity_tool.Base.{
  ℕ, Bool, true, false, ◌||◌, [], ◌∷◌, ◌++◌, if◌then◌else◌, Str, codes, is_empty, has_prefix,
  to_lower, join, ℤ,
}

-- The Go type is a string: the three constants, and any other text (`other []` when it is unset).
pub data Role : Type 0 where
  implementation spec_only gateway : Role
  other : Str → Role

-- Role.Valid
unfoldable pub valid : Role → Bool
valid (other s) = false
valid _ = true

pub record RepoRef : Type 0 where
  pub provider : Str
  pub git_host : Str
  pub owner : Str
  pub name : Str
  pub subpath : Str
  pub ref : Str

-- RepoRef.Canonical
unfoldable pub canonical : RepoRef → Str
canonical r =
    let base =
      codes "https://" ++ (r.git_host ++ (codes "/" ++ (r.owner ++ (codes "/" ++ r.name)))) in
    let sub = if is_empty r.subpath then [] else codes "//" ++ r.subpath in
    let pin = if is_empty r.ref then [] else codes "@" ++ r.ref in base ++ (sub ++ pin)

-- RepoRef.Key
unfoldable pub key : RepoRef → Str
unfolding join to_lower
key r =
    join (codes "|")
      (r.provider ∷ to_lower r.git_host ∷ to_lower r.owner ∷ to_lower r.name ∷ r.subpath ∷ [])

-- RepoRef.Slug
unfoldable pub slug : RepoRef → Str
slug r = r.owner ++ (codes "/" ++ r.name)

-- Times are instants counted from Go's zero time. A confidence is counted in hundredths: every
-- value that the program stores is rounded to two decimals.
pub record Upstream : Type 0 where
  pub host : Str
  pub repo : RepoRef
  pub path_prefix : Str
  pub role : Role
  pub priority : ℤ
  pub source : Str
  pub confidence : ℕ
  pub note : Str
  pub status : Str
  pub created_at : ℕ
  pub updated_at : ℕ

-- Upstream.Matches
unfoldable pub matches : Upstream → Str → Bool
unfolding has_prefix
matches u path = is_empty u.path_prefix || has_prefix path u.path_prefix
