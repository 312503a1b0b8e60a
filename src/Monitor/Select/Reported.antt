-- ===== src/Monitor/Select/Reported.antt =====
-- newOnly of internal/monitor/run.go: what a run reports as new.
use api_integrity_tool.Base.{
  ℕ, Any, ◌≤◌, ◌≡◌, refl, inl, true, Option, none, some, List, [], if◌then◌else◌, any, Str, str_eq,
  leb, find_by, arith,
}
use api_integrity_tool.Model.Finding.{Finding}
use api_integrity_tool.Monitor.Select.{print_of, count_seen, add_found}

-- A finding that newOnly lets through, by the code's own count.
abbrev IsTold : List Finding → List Finding → Finding → Type 0
IsTold stored fresh f =
    (find_by print_of f.fingerprint stored ≡ some f)
    × (count_seen f.fingerprint 0 stored ≤ 1)
    × (any (λ g. str_eq g.fingerprint f.fingerprint) fresh ≡ true)

abbrev print_or_none : Option Finding → Str
print_or_none none = []
print_or_none (some f) = f.fingerprint

occurrences_or : Option Finding → ℕ → ℕ
occurrences_or none n = n
occurrences_or (some f) n = f.occurrences

-- A stored finding that was found at most once so far, and that is among the fresh ones.
abbrev pub IsNews : List Finding → List Finding → Finding → Type 0
IsNews stored fresh f =
    (find_by print_of f.fingerprint stored ≡ some f)
    × (f.occurrences ≤ 1)
    × (any (λ g. str_eq g.fingerprint f.fingerprint) fresh ≡ true)

-- A fresh finding whose stored one was found at most once is told.
abbrev pub IsToldIn : List Finding → List Finding → Finding → Type 0
IsToldIn stored told g =
    (f : Finding)
    → find_by print_of g.fingerprint stored ≡ some f
    → f.occurrences ≤ 1
    → Any (λ x. x ≡ f) told

told :
    (f : Finding) (n : ℕ) (o : Option Finding) (rest : List Finding)
    → o ≡ some f
    → n ≡ f.occurrences
    → f.occurrences ≤ 1
    → Any (λ x. x ≡ f) (if leb n 1 then add_found o rest else rest)
told f n o rest e m l = rw (e, at_most_once n (rw m l)) (inl refl)
  where
    at_most_once : (k : ℕ) → k ≤ 1 → leb k 1 ≡ true
    at_most_once k h = ground arith
