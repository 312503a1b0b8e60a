-- ===== src/Linker/Prompt.antt =====
-- Prompt of internal/linker/linker.go. What it writes to the terminal is left out; what it reads is a
-- list of lines and the text behind the last one.
pub mod Bounds
use api_integrity_tool.Base.{
  ℕ, zero, suc, Bool, true, false, not, ◌&&◌, ◌||◌, Option, none, some, List, [], ◌∷◌,
  if◌then◌else◌, ◌==◌, any, Str, codes, str_eq, is_empty, to_lower, trim_space, length, ℤ,
}
use api_integrity_tool.Model.Repo.{Role}
use api_integrity_tool.Model.Decision.{
  Reason, closed_source, internal, third_party_no_repo, noise, other, free_text,
}
use api_integrity_tool.Store.State.{Disk}
use api_integrity_tool.Upstream.Ref.{RepoUrl}
use api_integrity_tool.Linker.Requests.{NeedsLink}
use api_integrity_tool.Linker.Linking.{LinkError}
use api_integrity_tool.Linker.Auto.{LinkOptions, link_host, unmonitor, defer}

pub record Input : Type 0 where
  pub lines : List Str
  pub tail : Str

-- What ReadString returns, and what it leaves.
pub record Line : Type 0 where
  pub text : Str
  pub at_end : Bool
  pub input : Input

unfoldable pub read_from : List Str → Str → Line
read_from (l ∷ lines) tail = record {
  text = l;
  at_end = false;
  input = record { lines = lines; tail = tail };
}
read_from [] tail = record { text = tail; at_end = true; input = record { lines = []; tail = [] } }

unfoldable pub read_line : Input → Line
unfolding read_from
read_line i = read_from i.lines i.tail

pub record Prompted : Type 0 where
  pub remaining : List NeedsLink
  pub error : Option LinkError
  pub disk : Disk

-- The kinds of answer that the switch tells apart.
pub data Answer : Type 0 where
  quit accept skip never : Answer
  repository : Str → Answer

unfoldable pub read_answer : Str → NeedsLink → Answer
unfolding to_lower str_eq
read_answer answer n =
    let word = to_lower answer in
    if str_eq word (codes "q") || str_eq word (codes "quit")
    then quit
    else if str_eq word (codes "s") || (str_eq word (codes "skip") || is_empty word)
    then if is_empty answer && not (is_empty n.suggested_repo) then accept else skip
    else if str_eq word (codes "n") || str_eq word (codes "never")
    then never
    else repository answer

unfoldable pub reason_of : Str → Reason
unfolding str_eq
reason_of s =
    if str_eq s (codes "closed_source")
    then closed_source
    else if str_eq s (codes "internal")
    then internal
    else if str_eq s (codes "third_party_no_repo")
    then third_party_no_repo
    else if str_eq s (codes "noise")
    then noise
    else if str_eq s (codes "other")
    then other
    else free_text s

abbrev pub cli_options : LinkOptions
cli_options = record {
  path_prefix = [];
  role = Role.other [];
  ref = [];
  note = [];
  priority = ℤ.pos 0;
  source = codes "cli";
}

-- A link that failed leaves its host unanswered.
abbrev pub keep_failed : Option LinkError → NeedsLink → Prompted → Prompted
keep_failed none n rest = rest
keep_failed (some e) n rest = record rest { remaining = n ∷ rest.remaining }

-- A decision that could not be stored ends the loop.
abbrev pub stop_failed : Option LinkError → Disk → Prompted → Prompted
stop_failed none disk rest = rest
stop_failed (some e) disk rest = record { remaining = []; error = some e; disk = disk }

-- How many hosts are asked about: 10 where `max` is not above zero.
abbrev pub asks_of : ℤ → ℕ
asks_of (ℤ.pos zero) = 10
asks_of (ℤ.pos (suc n)) = suc n
asks_of (ℤ.negsuc n) = 10

module _ (parse : Str → Option RepoUrl) (now : ℕ) where
  -- One answered question: the error of the link or of the decision, the input and the state file.
  unfoldable pub answer_link : Answer → NeedsLink → Disk → Option LinkError × Disk
  unfolding link_host
  answer_link accept n disk = link_host parse n.host n.suggested_repo cli_options now disk
  answer_link (repository s) n disk = link_host parse n.host s cli_options now disk
  answer_link _ n disk = (none, disk)

  unfoldable pub answer_decision : Answer → NeedsLink → Str → Disk → Option LinkError × Disk
  unfolding unmonitor defer reason_of trim_space
  answer_decision skip n line disk = defer n.host (codes "cli") now disk
  answer_decision never n line disk =
      unmonitor n.host (reason_of (trim_space line)) (codes "cli") now disk
  answer_decision _ n line disk = (none, disk)

  -- The input behind an answer: `never` reads the reason.
  unfoldable pub input_after : Answer → Input → Input
  unfolding read_line
  input_after never i = (read_line i).input
  input_after _ i = i

  abbrev pub is_quit : Answer → Bool
  is_quit quit = true
  is_quit _ = false

  -- The loop of Prompt, with the questions that may still be asked.
  unfoldable pub prompt_loop : ℕ → List NeedsLink → Input → Disk → Prompted
  unfolding read_line read_answer answer_link answer_decision input_after trim_space
  prompt_loop asks [] i disk = record { remaining = []; error = none; disk = disk }
  prompt_loop zero (n ∷ needs) i disk = record { remaining = n ∷ needs; error = none; disk = disk }
  prompt_loop (suc asks) (n ∷ needs) i disk =
      let line = read_line i in
      let answer = read_answer (trim_space line.text) n in
      let linked = answer_link answer n disk in
      let decided = answer_decision answer n (read_line line.input).text linked.1 in
      let rest = prompt_loop asks needs (input_after answer line.input) decided.1 in
      let stop : Prompted = record { remaining = n ∷ needs; error = none; disk = disk } in
      let go = stop_failed decided.0 decided.1 (keep_failed linked.0 n rest) in
      if line.at_end && is_empty (trim_space line.text) || is_quit answer then stop else go

  -- Prompt
  unfoldable pub prompt : List NeedsLink → Bool → ℤ → Input → Disk → Prompted
  unfolding prompt_loop
  prompt needs interactive max i disk =
      let rest = prompt_loop (asks_of max) needs i disk in
      if not interactive then record { remaining = needs; error = none; disk = disk } else rest
