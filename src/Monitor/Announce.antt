-- ===== src/Monitor/Announce.antt =====
-- What a line or a message says: the tests of internal/monitor/analyze/diff.go and majorBump of
-- internal/monitor/analyzers.go.
use api_integrity_tool.Base.{
  Bool, false, not, ◌&&◌, ◌||◌, Option, none, some, List, [], ◌∷◌, if◌then◌else◌, ◌==◌, any, length,
  ltb, Str, codes, is_empty, has_prefix, contains, to_lower, trim_space, split, cut, before_any,
  trim_prefix, read_int, ℤ, int_lt,
}

abbrev comment_prefixes : List Str
comment_prefixes =
    codes "//"
    ∷ codes "#"
    ∷ codes "--"
    ∷ codes "*"
    ∷ codes "/*"
    ∷ codes "%"
    ∷ codes ";"
    ∷ codes "'''"
    ∷ (34 ∷ 34 ∷ 34 ∷ [])
    ∷ []

-- IsCommentLine
unfoldable pub is_comment_line : Str → Bool
unfolding trim_space has_prefix
is_comment_line text =
    let t = trim_space text in not (is_empty t) && any (λ p. has_prefix t p) comment_prefixes

abbrev breaking_change_markers : List Str
breaking_change_markers =
    codes "BREAKING CHANGE"
    ∷ codes "BREAKING-CHANGE"
    ∷ codes "breaking change"
    ∷ codes "no longer"
    ∷ codes "incompatible"
    ∷ codes "must now"
    ∷ codes "has been removed"
    ∷ codes "was removed"
    ∷ codes "has been renamed"
    ∷ codes "was renamed"
    ∷ []

-- A line of a conventional commit that marks a break.
unfoldable pub marks_break : Str → Bool
unfolding cut
marks_break line = elim (cut (codes "!:") line) [
  | none ↦ false
  | some (before, after) ↦ ltb 0 (length before) && ltb (length before) 20
]

-- MentionsBreakingChange
unfoldable pub mentions_breaking_change : Str → Bool
unfolding contains to_lower split marks_break
mentions_breaking_change text =
    any (λ m. contains (to_lower text) (to_lower m)) breaking_change_markers
    || any marks_break (split 10 text)

-- majorOf, without the sign of success when there is none
unfoldable pub major_of : Str → Option ℤ
unfolding trim_prefix trim_space before_any read_int
major_of v =
    let version = trim_prefix (trim_space v) (codes "v") in
    let (n, fine) = read_int (before_any (λ c. c == b'.' || (c == b'-' || c == b'+')) version) in
    if is_empty version then none else if fine then some n else none

-- majorBump
unfoldable pub major_bump : Str → Str → Bool
unfolding major_of int_lt
major_bump before after = elim (major_of before) [
  | none ↦ false
  | some b ↦ elim (major_of after) [ none ↦ false | some a ↦ int_lt b a ]
]
