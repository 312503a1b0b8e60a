-- ===== src/Monitor/Removals.antt =====
-- analyzeDiff of internal/monitor/analyzers.go: the endpoints that removed lines name. Of a finding the
-- model keeps the endpoint, the file, the line, the signal, the severity and the confidence; its texts
-- and links are left out.
pub mod Capped
mod Tests
use api_integrity_tool.Base.{
  ℕ, zero, suc, ◌+◌, Bool, true, false, not, ◌&&◌, ◌||◌, List, [], ◌∷◌, ◌++◌, if◌then◌else◌, ◌==◌,
  any, keep, map, length, leb, Str, codes, str_eq, ℤ, pos, negsuc,
}
use api_integrity_tool.Model.Severity.{Severity, risky, info}
use api_integrity_tool.Monitor.Score.{Floats, cap, rate}
use api_integrity_tool.Monitor.Patch.{Line, Hunk, parse_hunks}
use api_integrity_tool.Monitor.FileClass.{Class, spec, classify, weight}
use api_integrity_tool.Monitor.Source.{FileChange}
use api_integrity_tool.Monitor.Match.{Target, match_text}
use api_integrity_tool.Monitor.Announce.{is_comment_line}

pub record Hit : Type 0 where
  pub target : Target
  pub file : Str
  pub file_class : Class
  pub line : Line

-- The targets of the lines of a kind in a hunk, with their lines.
unfoldable pub line_hits : List Target → Str → Class → ℕ → List Line → List Hit
unfolding match_text
line_hits ts file file_class kind [] = []
line_hits ts file file_class kind (l ∷ lines) =
    let rest = line_hits ts file file_class kind lines in
    if l.kind == kind
    then map (λ t. record { target = t; file = file; file_class = file_class; line = l })
        (match_text ts l.text)
      ++ rest
    else rest

unfoldable pub hunk_hits : List Target → Str → Class → ℕ → List Hunk → List Hit
unfolding line_hits
hunk_hits ts file file_class kind [] = []
hunk_hits ts file file_class kind (h ∷ hunks) =
    line_hits ts file file_class kind h.lines ++ hunk_hits ts file file_class kind hunks

-- The ids on added lines, which cancel a removal.
unfoldable pub added_ids : List Target → List FileChange → List Str
unfolding hunk_hits parse_hunks classify
added_ids ts [] = []
added_ids ts (f ∷ files) =
    map (λ (h : Hit). h.target.id)
      (hunk_hits ts f.filename (classify f.filename) b'+' (parse_hunks f.patch))
    ++ added_ids ts files

abbrev pub is_spec : Class → Bool
is_spec spec = true
is_spec _ = false

-- The hits on removed lines; a specification is compared otherwise.
unfoldable pub removed_hits : List Target → List FileChange → List Hit
unfolding hunk_hits parse_hunks classify
removed_hits ts [] = []
removed_hits ts (f ∷ files) =
    let file_class = classify f.filename in
    let rest = removed_hits ts files in
    if is_spec file_class
    then rest
    else hunk_hits ts f.filename file_class b'-' (parse_hunks f.patch) ++ rest

abbrev pub max_per_endpoint : ℕ
max_per_endpoint = 3

-- How often an id was reported.
unfoldable pub count_id : Str → List Str → ℕ
unfolding str_eq
count_id id [] = 0
count_id id (i ∷ ids) = let rest = count_id id ids in if str_eq i id then suc rest else rest

-- The loop that caps the hits of an endpoint, with the ids that were reported.
unfoldable pub cap_hits : List Str → List Hit → List Hit
unfolding count_id
cap_hits ids [] = []
cap_hits ids (h ∷ hits) =
    let skip = cap_hits ids hits in
    let taken = h ∷ cap_hits (h.target.id ∷ ids) hits in
    if leb max_per_endpoint (count_id h.target.id ids) then skip else taken

-- The signal and the severity that is proposed.
unfoldable pub verdict : List Str → Hit → Str × Severity
unfolding str_eq is_comment_line
verdict added h =
    if any (λ i. str_eq i h.target.id) added
    then (codes "diff.route_moved", info)
    else if is_comment_line h.line.text
    then (codes "diff.removed_path_literal", info)
    else (codes "diff.removed_path_literal", risky)

module _ (R : Floats) where
  -- MeanScore of one target; Rate reads a negative mean as it reads zero.
  unfoldable pub mean_score : Target → R.F
  mean_score t = elim t.score [ pos n ↦ R.hundredths n | negsuc n ↦ R.hundredths 0 ]

  pub record Removal : Type 0 where
    pub target : Target
    pub file : Str
    pub line : ℤ
    pub signal : Str
    pub severity : Severity
    pub confidence : R.F

  -- Rate of a hit, where MatchVariant is 0.8
  unfoldable pub rated : List Str → Hit → Severity × R.F
  unfolding verdict rate weight mean_score
  rated added h =
      let (signal, proposed) = verdict added h in
      rate R signal proposed (R.hundredths 80) (R.hundredths (weight h.file_class))
        (mean_score h.target)

  unfoldable pub removal : List Str → Hit → Removal
  unfolding verdict rated cap
  removal added h =
      let (severity, confidence) = rated added h in
      record {
        target = h.target;
        file = h.file;
        line = h.line.old_line;
        signal = (verdict added h).0;
        severity = cap severity risky;
        confidence = confidence;
      }

  -- analyzeDiff
  unfoldable pub analyze_diff : List Target → List FileChange → List Removal
  unfolding removal added_ids removed_hits cap_hits
  analyze_diff ts files = map (removal (added_ids ts files)) (cap_hits [] (removed_hits ts files))
