-- ===== src/Normalize/Path.antt =====
-- cleanPath of internal/normalize/url.go and what it calls.
pub mod Steps
pub mod Clean
pub mod Dots
use api_integrity_tool.Base.{
  ℕ, suc, zero, ◌+◌, ◌-◌, Bool, true, false, not, ◌&&◌, ◌||◌, List, [], ◌∷◌, ◌++◌, if◌then◌else◌,
  ltb, leb, ◌==◌, length, any, Str, codes, str_eq, has_prefix, has_suffix, contains, is_empty, join,
  split, trim_suffix,
}
use api_integrity_tool.Normalize.Squeeze.{squeeze}

-- appendFlag
unfoldable pub append_flag : List Str → Str → List Str
unfolding str_eq
append_flag flags f = if any (λ e. str_eq e f) flags then flags else flags ++ f ∷ []

-- isHex
unfoldable pub is_hex : ℕ → Bool
is_hex c = leb b'0' c && leb c b'9' || (leb b'a' c && leb c b'f' || leb b'A' c && leb c b'F')

-- upperHex
unfoldable pub upper_hex : ℕ → ℕ
upper_hex c = if leb b'a' c && leb c b'f' then c - 32 else c

-- The loop of upperPercentEscapes. After an escape it goes on behind the two digits, which are no `%`.
unfoldable pub upper_loop : Str → Str
unfolding is_hex upper_hex
upper_loop (c ∷ d ∷ e ∷ s) =
    let escape = c ∷ upper_hex d ∷ upper_hex e ∷ upper_loop s in
    let rest = c ∷ upper_loop (d ∷ e ∷ s) in
    if c == b'%' && (is_hex d && is_hex e) then escape else rest
upper_loop (c ∷ d ∷ []) = c ∷ d ∷ []
upper_loop (c ∷ []) = c ∷ []
upper_loop [] = []

-- upperPercentEscapes
unfoldable pub upper_percent_escapes : Str → Str
unfolding upper_loop contains
upper_percent_escapes s = if not (contains s (codes "%")) then s else upper_loop s

abbrev pub drop_last : List Str → List Str
drop_last [] = []
drop_last (s ∷ []) = []
drop_last (s ∷ t ∷ ss) = s ∷ drop_last (t ∷ ss)

-- The loop of pathCleanKeepRoot.
unfoldable pub resolve_dots : List Str → List Str → List Str
unfolding str_eq
resolve_dots out [] = out
resolve_dots out (s ∷ parts) =
    resolve_dots
      (if str_eq s (codes ".") || str_eq s []
        then out
        else if str_eq s (codes "..")
        then drop_last out
        else out ++ s ∷ [])
      parts

-- pathCleanKeepRoot
unfoldable pub path_clean_keep_root : Str → Str
unfolding resolve_dots split join
path_clean_keep_root p = b'/' ∷ join (codes "/") (resolve_dots [] (split b'/' p))

-- The test for a dot segment.
unfoldable pub has_dots : Str → Bool
unfolding contains has_suffix
has_dots p =
    contains p (codes "/./")
    || (contains p (codes "/../") || (has_suffix p (codes "/.") || has_suffix p (codes "/..")))

unfoldable pub rooted : Str → Str
unfolding has_prefix
rooted p = if has_prefix p (codes "/") then p else b'/' ∷ p

-- The dot segments are resolved where no placeholder can stand for one; the list is the flags.
unfoldable pub without_dots : Str → Bool → List Str → Str × List Str
unfolding has_dots path_clean_keep_root append_flag str_eq
without_dots p had_hole flags =
    let cleaned = path_clean_keep_root p in
    if not had_hole && has_dots p
    then if not (str_eq cleaned p)
      then (cleaned, append_flag flags (codes "dot_segments_resolved"))
      else (p, flags)
    else (p, flags)

unfoldable pub trim_slash : Str → Bool → Str
unfolding trim_suffix
trim_slash p trailing =
    let cut = trim_suffix p (codes "/") in
    if trailing && ltb 1 (length p) then if is_empty cut then codes "/" else cut else p

-- cleanPath: the path, whether it had a trailing slash, and the flags
unfoldable pub clean_path : Str → Bool → List Str → Str × Bool × List Str
unfolding upper_percent_escapes squeeze rooted without_dots trim_slash has_suffix
clean_path [] had_hole flags = (codes "/", false, flags)
clean_path (c ∷ s) had_hole flags =
    let p = rooted (squeeze b'/' (upper_percent_escapes (c ∷ s))) in
    let trailing = ltb 1 (length p) && has_suffix p (codes "/") in
    let resolved = without_dots p had_hole flags in
    (trim_slash resolved.0 trailing, trailing, resolved.1)
