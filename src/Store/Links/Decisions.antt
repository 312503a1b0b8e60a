-- ===== src/Store/Links/Decisions.antt =====
-- A decision stands for its host alone, until it expires or the host is linked.
use api_integrity_tool.Base.{
  ℕ, ◌+◌, ◌≤◌, ◌≡◌, refl, ap, ◌∙◌, ◌&&◌, inl, inr, Option, none, some, List, [], ◌∷◌, ◌++◌, arith,
  if◌then◌else◌, Bool-cases, ltb, Str, str_eq, str_eq_iff, str_eq_sym, Lacks, DistinctBy, find_by,
  find_by-Lacks, find_by-sort_by, sort_by, DistinctBy-sort_by, DistinctBy-keep, find_first,
}
use api_integrity_tool.Model.Decision.{Decision, later, active}
use api_integrity_tool.Store.State.{
  State, Disk, ok, schema_version, normalize, update-ok, decision_less,
}
use api_integrity_tool.Store.Links.{
  drop_decision, dated, week, decide_step, set_decision, decision_for,
}

abbrev pub host_of : Decision → Str
host_of d = d.host

-- No host has two decisions.
abbrev pub OnePerHost : List Decision → Type 0
OnePerHost = DistinctBy host_of

abbrev pub decisions_of : Disk → List Decision
decisions_of none = []
decisions_of (some st) = st.decisions

find_by-append :
    (k : Str) (ds : List Decision) (d : Decision)
    → find_by host_of k (ds ++ d ∷ []) ≡ elim (find_by host_of k ds) [
      | some e ↦ some e
      | none ↦ if str_eq d.host k then some d else none
    ]
find_by-append k [] d = refl
find_by-append k (e ∷ ds) d = ground (arith, find_by-append k ds d)

find_by-drop_decision :
    (k host : Str) (ds : List Decision)
    → find_by host_of k (drop_decision ds host)
      ≡ (if str_eq host k then none else find_by host_of k ds)
unfolding drop_decision
find_by-drop_decision k host [] = ground arith
find_by-drop_decision k host (d ∷ ds) = ground (
  arith,
  find_by-drop_decision k host ds,
  str_eq_iff d.host host,
  str_eq_iff d.host k,
  str_eq_iff host k,
)

OnePerHost-append :
    (d : Decision) (ds : List Decision)
    → Lacks host_of d.host ds
    → OnePerHost ds
    → OnePerHost (ds ++ d ∷ [])
OnePerHost-append d [] l o = (tt, tt)
OnePerHost-append d (e ∷ ds) l o = (lacks ds o.0, OnePerHost-append d ds l.1 o.1)
  where
    lacks : (xs : List Decision) → Lacks host_of e.host xs → Lacks host_of e.host (xs ++ d ∷ [])
    lacks [] h = (str_eq_sym d.host e.host ∙ l.0, tt)
    lacks (x ∷ xs) h = (h.0, lacks xs h.1)

Lacks-drop_decision : (host : Str) (ds : List Decision) → Lacks host_of host (drop_decision ds host)
unfolding drop_decision
Lacks-drop_decision host [] = tt
Lacks-drop_decision host (d ∷ ds) = elim (Bool-cases (str_eq d.host host)) [
  | inl e ↦ rw e (Lacks-drop_decision host ds)
  | inr e ↦ rw e (e, Lacks-drop_decision host ds)
]

decide_step-OnePerHost :
    (d : Decision) (now : ℕ) (st : State)
    → OnePerHost st.decisions
    → OnePerHost (decide_step d now st).decisions
unfolding decide_step drop_decision dated
decide_step-OnePerHost d now st o =
    OnePerHost-append (dated now d) _ (Lacks-drop_decision d.host st.decisions)
      (DistinctBy-keep host_of _ st.decisions o)

find_by-decide_step :
    (d : Decision) (now : ℕ) (st : State) (k : Str)
    → find_by host_of k (decide_step d now st).decisions
      ≡ (if str_eq d.host k then some (dated now d) else find_by host_of k st.decisions)
unfolding decide_step dated
find_by-decide_step d now st k =
    find_by-append k (drop_decision st.decisions d.host) (dated now d)
    ∙ ground (arith, find_by-drop_decision k d.host st.decisions)

-- The decision if it suppresses the question at time `t`.
abbrev pub if_active : ℕ → Option Decision → Option Decision
if_active t none = none
if_active t (some d) = if active d t then some d else none

-- Where no host has two decisions, the active one is the one found by the host, if it is active.
find_first-active :
    (host : Str) (now : ℕ) (ds : List Decision)
    → OnePerHost ds
    → find_first (λ d. str_eq d.host host && active d now) ds
      ≡ if_active now (find_by host_of host ds)
find_first-active host now [] o = refl
find_first-active host now (d ∷ ds) o = ground (
  arith,
  find_first-active host now ds o.1,
  find_by-Lacks host_of d.host ds o.0,
  str_eq_iff d.host host,
)

abbrev pub state_of : Disk → State → State
state_of none st = st
state_of (some s) st = s

-- What SetDecision, called at time `now`, makes of the decision found for a host.
abbrev pub decided : Decision → ℕ → Str → Option Decision → Option Decision
decided d now host old = if str_eq d.host host then some (dated now d) else old

module _ (d : Decision) (now : ℕ) (st : State) (known : st.version ≤ schema_version)
    (o : OnePerHost st.decisions) where
  written : State
  written = normalize (record (decide_step d now st) { version = schema_version; updated_at = now })

  state-set_decision : (set_decision d now (some st)).1 ≡ some written
  unfolding set_decision written
  state-set_decision =
      ap (λ r. r.1)
        (update-ok (λ s. ok (decide_step d now s, tt)) now st (decide_step d now st) tt known refl)

  decisions-written : written.decisions ≡ sort_by decision_less (decide_step d now st).decisions
  unfolding written normalize
  decisions-written = refl

  distinct : OnePerHost (decide_step d now st).decisions
  distinct = decide_step-OnePerHost d now st o

  written-OnePerHost : OnePerHost written.decisions
  written-OnePerHost =
      rw decisions-written
        (DistinctBy-sort_by host_of decision_less (decide_step d now st).decisions distinct)

  find_by-written :
      (host : Str)
      → find_by host_of host written.decisions
        ≡ decided d now host (find_by host_of host st.decisions)
  find_by-written host =
      ap (find_by host_of host) decisions-written
      ∙ find_by-sort_by host_of decision_less host (decide_step d now st).decisions distinct
      ∙ find_by-decide_step d now st host

  decision_for-written :
      (host : Str) (t : ℕ)
      → decision_for written host t ≡ if_active t (find_by host_of host written.decisions)
  unfolding decision_for
  decision_for-written host t = find_first-active host t written.decisions written-OnePerHost

  -- From a readable state with one decision a host at most, SetDecision leaves one a host at most,
  -- and for each host and time DecisionFor then gives the new decision where it is for that host,
  -- and the old one otherwise, each as long as it is active.
  pub set_decision_lem :
      OnePerHost (decisions_of (set_decision d now (some st)).1)
      × ((host : Str) (t : ℕ)
          → decision_for (state_of (set_decision d now (some st)).1 st) host t
            ≡ if_active t (decided d now host (find_by host_of host st.decisions)))
  set_decision_lem = (
    rw state-set_decision written-OnePerHost,
    λ host t.
        rw state-set_decision
          (decision_for-written host t ∙ ap (if_active t) (find_by-written host)),
  )

-- A deferral without an expiry of its own suppresses the question for exactly a week.
pub later-expires :
    (d : Decision) (now t : ℕ)
    → d.kind ≡ later
    → d.expires_at ≡ none
    → active (dated now d) t ≡ ltb t ((dated now d).decided_at + week)
unfolding active dated
later-expires d now t k e = ground arith
