-- ===== src/Store/Runs/History.antt =====
-- The run history: bounded, newest first, and a started run is there to be finished.
use api_integrity_tool.Base.{
  ℕ, zero, suc, ◌∙◌, Bool, false, Laws, IsSortedBy, sort_by-IsSortedBy, insert_by, ◌+◌, ◌≤◌, ◌≡◌,
  refl, ap, true, none, some, List, [], ◌∷◌, arith, All, take, All-take, All-sort_by, sort_by,
  sort_by-append_least, Str,
}
use api_integrity_tool.Store.State.{
  State, Disk, ok, Run, schema_version, max_runs, run_less, normalize, update-ok,
}
use api_integrity_tool.Store.Runs.{
  new_run, start_step, start_run, replace_run, finish_step, finish_run,
}

sort_by-sorted :
    {A : Type 0} (less : A → A → Bool) (xs : List A) → IsSortedBy less xs → sort_by less xs ≡ xs
unfolding sort_by insert_by
sort_by-sorted less [] h = refl
sort_by-sorted less (x ∷ []) h = refl
sort_by-sorted less (x ∷ (y ∷ ys)) h =
    ap (insert_by less x) (sort_by-sorted less (y ∷ ys) h.1) ∙ rw h.0.0 refl

IsSortedBy-take :
    {A : Type 0} (less : A → A → Bool) (n : ℕ) (xs : List A)
    → IsSortedBy less xs
    → IsSortedBy less (take n xs)
IsSortedBy-take less zero xs h = tt
IsSortedBy-take less (suc n) [] h = tt
IsSortedBy-take less (suc n) (x ∷ xs) h =
    (All-take (λ y. less y x ≡ false) n xs h.0, IsSortedBy-take less n xs h.1)

take-take : {A : Type 0} (n : ℕ) (xs : List A) → take n (take n xs) ≡ take n xs
take-take zero xs = refl
take-take (suc n) [] = refl
take-take (suc n) (x ∷ xs) = ap (λ t. x ∷ t) (take-take n xs)

run_less-Laws : Laws {0} (λ (r : Run). Unit) run_less
run_less-Laws = record {
  asym = λ x y p q e. ground arith;
  not_trans = λ x y z p q r e f. ground arith;
}

All-Unit : (rs : List Run) → All (λ (r : Run). Unit {0}) rs
All-Unit [] = tt
All-Unit (r ∷ rs) = (tt, All-Unit rs)

newest_first :
    (n : ℕ) (run : Run) (rs : List Run)
    → run.seq ≡ n + 1
    → All (λ (r : Run). r.seq ≤ n) rs
    → All (λ r. run_less r run ≡ false) rs
newest_first n run [] e h = tt
newest_first n run (r ∷ rs) e h = (ground (arith, h.0, e), newest_first n run rs e h.1)

-- Every run is numbered by the counter.
abbrev pub Numbered : State → Type 0
Numbered st = All (λ (r : Run). r.seq ≤ st.run_seq) st.runs

abbrev pub runs_of : Disk → List Run
runs_of none = []
runs_of (some st) = st.runs

newest :
    (n : ℕ) (run : Run) (rs : List Run)
    → n + 1 ≡ run.seq
    → All (λ (r : Run). r.seq ≤ n) rs
    → All (λ r. run_less run r ≡ true) rs
newest n run [] e h = tt
newest n run (r ∷ rs) e h = (ground (arith, h.0), newest n run rs e h.1)

All-le-suc :
    (n : ℕ) (rs : List Run) → All (λ (r : Run). r.seq ≤ n) rs → All (λ (r : Run). r.seq ≤ n + 1) rs
All-le-suc n [] h = tt
All-le-suc n (r ∷ rs) h = (omega (arith, h.0), All-le-suc n rs h.1)

module _ (trigger : Str) (now : ℕ) (st : State) where
  -- The record that StartRun allocates, and the state that it writes.
  abbrev pub started : Run
  started = new_run (st.run_seq + 1) trigger now

  abbrev pub after_start : State
  after_start =
      normalize
        (record (start_step trigger now st).0 { version = schema_version; updated_at = now })

module _ (trigger : Str) (now : ℕ) (st : State) (known : st.version ≤ schema_version)
    (numbered : Numbered st) where
  abbrev run : Run
  run = started trigger now st

  abbrev after : State
  after = after_start trigger now st

  start_run-eq : start_run trigger now (some st) ≡ (ok run, some after)
  unfolding start_run start_step
  start_run-eq =
      update-ok (λ s. ok (start_step trigger now s)) now st (start_step trigger now st).0 run known
        refl

  runs-after_start : after.runs ≡ take max_runs (run ∷ sort_by run_less st.runs)
  unfolding normalize start_step
  runs-after_start =
      ap (take max_runs)
        (sort_by-append_least run_less st.runs run (newest st.run_seq run st.runs refl numbered))

  Numbered-after_start : Numbered after
  unfolding normalize start_step
  Numbered-after_start = rw runs-after_start (
    omega arith,
    All-take _ 49 _ (All-sort_by run_less _ st.runs (All-le-suc st.run_seq st.runs numbered)),
  )

  abbrev rest : List Run
  rest = take 49 (sort_by run_less st.runs)

  -- The run with the number and the id of the started one takes its place.
  module _ (r : Run) (later : ℕ) (same_id : r.id ≡ run.id) (same_seq : r.seq ≡ run.seq) where
    abbrev done : Run
    done = record r { finished_at = some later; complete = true }

    replaced : (finish_step r later after).runs ≡ done ∷ rest
    unfolding finish_step replace_run
    replaced = rw runs-after_start (ground arith)

    sort-replaced : take max_runs (sort_by run_less (done ∷ rest)) ≡ done ∷ rest
    sort-replaced =
        ap (take max_runs) (
          sort_by-sorted run_less (done ∷ rest) (
            newest_first st.run_seq done rest same_seq
                (All-take _ 49 _ (All-sort_by run_less _ st.runs numbered)),
            IsSortedBy-take run_less 49 (sort_by run_less st.runs)
                (sort_by-IsSortedBy run_less run_less-Laws st.runs (All-Unit st.runs)),
          ))
        ∙ ap (λ t. done ∷ t) (take-take 49 (sort_by run_less st.runs))

    finish-after_start : runs_of (finish_run r later (some after)).1 ≡ done ∷ rest
    unfolding finish_run normalize
    finish-after_start =
        ap (λ d. runs_of d.1)
          (update-ok (λ s. ok (finish_step r later s, tt)) later after (finish_step r later after)
            tt (omega arith) refl)
        ∙ ap (λ rs. take max_runs (sort_by run_less rs)) replaced
        ∙ sort-replaced

  -- From a readable state whose runs are numbered by the counter, StartRun returns a run with the
  -- next number, stores it in front of the runs that were there, drops only what is beyond the
  -- fiftieth, and leaves the runs numbered by the counter; when FinishRun is then given a run with
  -- its id and number, that run takes its place in the state, complete and with its time of
  -- ending, and the other runs stay as they were.
  pub start_run_lem :
      (start_run trigger now (some st) ≡ (ok run, some after))
      × (after.runs ≡ run ∷ take 49 (sort_by run_less st.runs))
      × Numbered after
      × ((r : Run) (later : ℕ)
          → r.id ≡ run.id
          → r.seq ≡ run.seq
          → runs_of (finish_run r later (some after)).1
            ≡ record r { finished_at = some later; complete = true }
              ∷ take 49 (sort_by run_less st.runs))
  start_run_lem = (start_run-eq, runs-after_start, Numbered-after_start, finish-after_start)
