-- ===== src/Monitor/Targets/Credit.antt =====
-- creditDeclaredHost of internal/monitor/run.go: what the credit does to a call.
use api_integrity_tool.Base.{
  ◌+◌, ◌≡◌, refl, ◌⊎◌, inl, inr, true, false, Bool-cases, ltb, ℤ, pos, negsuc, int_lt, Str, codes,
  arith,
}
use api_integrity_tool.Index.Calls.{Call}
use api_integrity_tool.Monitor.Targets.{
  HostMappings, has_flag, is_declared, credit_score, credit_declared_host,
}

credit_score-bound : (s : ℤ) → int_lt (pos 100) (credit_score s) ≡ false
unfolding credit_score int_lt
credit_score-bound (pos n) = ground (arith, Bool-cases (ltb 100 (n + 15)))
credit_score-bound (negsuc n) = ground (arith, Bool-cases (ltb n 15))

credit_score-raises : (s : ℤ) → (int_lt (pos 100) s ≡ true) ⊎ (int_lt (credit_score s) s ≡ false)
unfolding credit_score int_lt
credit_score-raises (pos n) = ground (arith, Bool-cases (ltb 100 (n + 15)))
credit_score-raises (negsuc n) = ground (arith, Bool-cases (ltb n 15))

-- The credit of a call goes to symbolic hosts alone that the configuration declares to be the upstream's;
-- it leaves a score of at most 100 and lowers none that was at most 100, and it changes neither
-- what is called nor where.
pub credit_declared_host_lem :
    (config : HostMappings) (c : Call) (host : Str)
    → let d = credit_declared_host config c host in
      ((d ≡ c)
        ⊎ ((has_flag c.flags (codes "symbolic_host") ≡ true)
            × (is_declared config c host ≡ true)
            × (int_lt (pos 100) d.score ≡ false)
            × ((int_lt (pos 100) c.score ≡ true) ⊎ (int_lt d.score c.score ≡ false))))
      × (d.id ≡ c.id)
      × (d.host ≡ c.host)
      × (d.method ≡ c.method)
      × (d.path ≡ c.path)
      × (d.location ≡ c.location)
unfolding credit_declared_host
credit_declared_host_lem config c host =
    let symbolic = has_flag c.flags (codes "symbolic_host") in
    let declared = is_declared config c host in
    elim (Bool-cases symbolic) [
      | inr e ↦ rw e (inl refl, refl, refl, refl, refl, refl)
      | inl e ↦ elim (Bool-cases declared) [
        | inr f ↦ rw (e, f) (inl refl, refl, refl, refl, refl, refl)
        | inl f ↦
            rw (e, f)
              (
                inr (refl, refl, credit_score-bound c.score, credit_score-raises c.score),
                refl,
                refl,
                refl,
                refl,
                refl,
              )
      ]
    ]
