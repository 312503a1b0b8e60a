-- ===== src/Index/Merge/Bare.antt =====
-- The calls that a merge appends, less their lifecycles.
use api_integrity_tool.Base.{
  Str, ◌≡◌, refl, ap, sym, ◌∙◌, inl, inr, List, [], ◌∷◌, ◌++◌, map, Option-cases,
}
use api_integrity_tool.Index.Calls.{Call, active}
use api_integrity_tool.Index.Merge.{Progress, find_prev, merge_call, merge_loop}

-- A call without its lifecycle.
abbrev pub bare : Call → Call
bare c = record c {
  lifecycle = record {
    first_seen_scan = [];
    first_seen_commit = [];
    last_seen_scan = [];
    last_seen_commit = [];
    status = active;
    missing_scans = 0;
  };
}

pub bare-append : (xs ys : List Call) → map bare (xs ++ ys) ≡ map bare xs ++ map bare ys
bare-append [] ys = refl
bare-append (x ∷ xs) ys = ap (λ zs. bare x ∷ zs) (bare-append xs ys)

pub append_assoc : (xs ys zs : List Call) → (xs ++ ys) ++ zs ≡ xs ++ (ys ++ zs)
append_assoc [] ys zs = refl
append_assoc (x ∷ xs) ys zs = ap (λ l. x ∷ l) (append_assoc xs ys zs)

pub append-nil : (xs : List Call) → xs ++ [] ≡ xs
append-nil [] = refl
append-nil (x ∷ xs) = ap (λ l. x ∷ l) (append-nil xs)

merge_call-bare :
    (prev : List Call) (scan commit : Str) (c : Call) (p : Progress)
    → map bare (merge_call prev scan commit c p).calls ≡ map bare p.calls ++ bare c ∷ []
unfolding merge_call
merge_call-bare prev scan commit c p = elim (Option-cases (find_prev prev p.matched c)) [
  | inl e ↦ rw (e, merge_call) (bare-append p.calls _)
  | inr ((old, how), e) ↦ rw (e, merge_call) (bare-append p.calls _)
]

pub merge_loop-bare :
    (prev : List Call) (scan commit : Str) (cs : List Call) (p : Progress)
    → map bare (merge_loop prev scan commit cs p).calls ≡ map bare p.calls ++ map bare cs
unfolding merge_loop
merge_loop-bare prev scan commit [] p = sym (append-nil (map bare p.calls))
merge_loop-bare prev scan commit (c ∷ cs) p =
    merge_loop-bare prev scan commit cs (merge_call prev scan commit c p)
    ∙ ap (λ l. l ++ map bare cs) (merge_call-bare prev scan commit c p)
    ∙ append_assoc (map bare p.calls) (bare c ∷ []) (map bare cs)
