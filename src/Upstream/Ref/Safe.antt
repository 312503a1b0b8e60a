-- ===== src/Upstream/Ref/Safe.antt =====
-- What ParseRepoRef accepts.
use api_integrity_tool.Base.{◌≡◌, ◌≢◌, false, [], All, Str, codes, contains, to_lower}
use api_integrity_tool.Model.Repo.{RepoRef}
use api_integrity_tool.Upstream.Ref.{Parsed, ok, fail}

-- A name of one path segment.
abbrev pub IsSegment : Str → Type 0
IsSegment s = (s ≢ []) × All (λ c. c ≢ b'/') s

abbrev pub IsSafe : RepoRef → Type 0
IsSafe r =
    IsSegment r.owner
    × IsSegment r.name
    × (contains r.subpath (codes "..") ≡ false)
    × (to_lower r.git_host ≡ r.git_host)

-- What holds of a parsed value.
abbrev Ensures {ℓ} : {A : Type ℓ} → (A → Type 0) → Parsed A → Type 0
Ensures P (ok a) = P a
Ensures P (fail e) = Unit
