-- ===== src/Linker/Account.antt =====
-- AutoLink of internal/linker/linker.go: its report accounts for every request.
use api_integrity_tool.Base.{
  ℕ, ◌+◌, ◌≡◌, refl, ap, sym, ◌∙◌, subst, All-append, Option, none, some, List, [], ◌∷◌, All,
  length, length-append, Str, arith,
}
use api_integrity_tool.Store.State.{State, Disk}
use api_integrity_tool.Upstream.Ref.{RepoUrl, Parsed, ok, fail, parse_repo_ref}
use api_integrity_tool.Upstream.WellKnown.{WellKnown, lookup_well_known}
use api_integrity_tool.Linker.Requests.{HostRequest}
use api_integrity_tool.Linker.Linking.{
  Report, Fate, already, watched_not, link, ask, note_fate, fate, LinkError, empty_report, fate_of,
  table_fate, known_upstream,
}
use api_integrity_tool.Model.Decision.{Decision}
use api_integrity_tool.Model.Repo.{RepoRef, Upstream}
use api_integrity_tool.Store.Links.{upstreams_for_host, decision_for}
use api_integrity_tool.Linker.Auto.{Linked, stop_or, store_fate, auto_loop}

-- The requests that a report speaks of.
abbrev pub told : Report → ℕ
told rep =
    length rep.linked + length rep.unmonitored_hosts + length rep.needs_link + rep.already_linked

told-note_fate : (f : Fate) (rep : Report) → told (note_fate f rep) ≡ told rep + 1
told-note_fate already rep = omega arith
told-note_fate (watched_not s) rep = omega (arith, length-append {0} rep.unmonitored_hosts (s ∷ []))
told-note_fate (link u) rep = omega (arith, length-append {0} rep.linked (u ∷ []))
told-note_fate (ask n) rep = omega (arith, length-append {0} rep.needs_link (n ∷ []))

-- The notes of all requests, by the state that was read before the loop.
abbrev pub note_all : List Fate → Report → Report
note_all [] rep = rep
note_all (f ∷ fs) rep = note_all fs (note_fate f rep)

stop_or-none :
    (o : Option LinkError) (rep : Report) (disk : Disk) (rest : Linked)
    → (stop_or o rep disk rest).error ≡ none
    → stop_or o rep disk rest ≡ rest
stop_or-none (some e) rep disk rest h = cc
stop_or-none none rep disk rest h = refl

table_fate-link :
    (req : HostRequest) (wk : WellKnown) (ref : Parsed RepoRef) (u : Upstream)
    → table_fate req wk ref ≡ link u
    → u.host ≡ req.host
unfolding table_fate known_upstream
table_fate-link req wk (ok ref) u h = cc
table_fate-link req wk (fail e) u h = cc

fate_of-link :
    (req : HostRequest) (ref : WellKnown → Parsed RepoRef) (us : List Upstream)
    (d : Option Decision) (entry : Option WellKnown) (u : Upstream)
    → fate_of req ref us d entry ≡ link u
    → (us ≡ []) × (d ≡ none) × (u.host ≡ req.host)
unfolding fate_of
fate_of-link req ref (v ∷ us) d entry u h = cc
fate_of-link req ref [] (some d) entry u h = cc
fate_of-link req ref [] none none u h = cc
fate_of-link req ref [] none (some wk) u h = (refl, refl, table_fate-link req wk (ref wk) u h)

module _ (parse : Str → Option RepoUrl) (table : List WellKnown) (now : ℕ) (st : State) where
  abbrev pub fates : List HostRequest → List Fate
  fates [] = []
  fates (req ∷ reqs) = fate parse table now st req ∷ fates reqs

  -- The host had no link, and no decision that is active.
  abbrev pub WasFree : Upstream → Type 0
  WasFree u = (upstreams_for_host st u.host ≡ []) × (decision_for st u.host now ≡ none)

  loop_told :
      (reqs : List HostRequest) (rep : Report) (disk : Disk)
      → (auto_loop parse table now st reqs rep disk).error ≡ none
      → ((auto_loop parse table now st reqs rep disk).report ≡ note_all (fates reqs) rep)
        × (told (auto_loop parse table now st reqs rep disk).report ≡ told rep + length reqs)
  unfolding auto_loop
  loop_told [] rep disk h = (refl, omega arith)
  loop_told (req ∷ reqs) rep disk h =
      let what = fate parse table now st req in
      let done = store_fate what now disk in
      let rest = auto_loop parse table now st reqs (note_fate what rep) done.1 in
      let same = stop_or-none done.0 rep done.1 rest h in
      let ih =
        loop_told reqs (note_fate what rep) done.1 (ap (λ (l : Linked). l.error) (sym same) ∙ h) in
      (
        ap (λ (l : Linked). l.report) same ∙ ih.0,
        omega (arith, ap (λ (l : Linked). told l.report) same, ih.1, told-note_fate what rep),
      )

  -- A host that AutoLink links itself had no link, and no decision that is active.
  fate_link :
      (req : HostRequest) (u : Upstream)
      → fate parse table now st req ≡ link u
      → (upstreams_for_host st req.host ≡ [])
        × (decision_for st req.host now ≡ none)
        × (u.host ≡ req.host)
  unfolding fate
  fate_link req u h =
      fate_of-link req (λ (wk : WellKnown). parse_repo_ref parse wk.repo)
        (upstreams_for_host st req.host) (decision_for st req.host now)
        (lookup_well_known table req.host) u h

  note-All :
      (req : HostRequest) (f : Fate)
      → fate parse table now st req ≡ f
      → (rep : Report) → All WasFree rep.linked
      → All WasFree (note_fate f rep).linked
  note-All req already e rep h = h
  note-All req (watched_not s) e rep h = h
  note-All req (ask n) e rep h = h
  note-All req (link u) e rep h =
      let (a, b, c) = fate_link req u e in
      All-append WasFree rep.linked (u ∷ []) h ((rw c a, rw c b), tt)

  linked-All :
      (reqs : List HostRequest) (rep : Report)
      → All WasFree rep.linked
      → All WasFree (note_all (fates reqs) rep).linked
  linked-All [] rep h = h
  linked-All (req ∷ reqs) rep h =
      linked-All reqs (note_fate (fate parse table now st req) rep)
        (note-All req (fate parse table now st req) refl rep h)

  -- If no error stops AutoLink, its report says of each request what the state before the loop and the
  -- table decide, in order, and it speaks of each request exactly once. Every host that it links had
  -- no link and no active decision.
  pub auto_loop_lem :
      (reqs : List HostRequest) (disk : Disk)
      → (auto_loop parse table now st reqs empty_report disk).error ≡ none
      → ((auto_loop parse table now st reqs empty_report disk).report
          ≡ note_all (fates reqs) empty_report)
        × (told (auto_loop parse table now st reqs empty_report disk).report ≡ length reqs)
        × All WasFree (auto_loop parse table now st reqs empty_report disk).report.linked
  auto_loop_lem reqs disk h =
      let (same, count) = loop_told reqs empty_report disk h in
      (
        same,
        omega (arith, count),
        subst (λ (r : Report). All WasFree r.linked) (sym same) (linked-All reqs empty_report tt),
      )
