-- ===== src/Normalize/Ids.antt =====
-- collapseIDSegments of internal/normalize/url.go: literal segments that are identifiers.
use api_integrity_tool.Base.{
  ℕ, suc, zero, Bool, true, false, not, ◌&&◌, ◌||◌, List, [], ◌∷◌, ◌++◌, if◌then◌else◌, leb, ◌==◌,
  length, any, Str, codes, str_eq, has_prefix, join, split,
}
use api_integrity_tool.Normalize.Path.{append_flag, is_hex}
use api_integrity_tool.Normalize.Token.{is_upper, is_lower, is_digit}

pub record PathVar : Type 0 where
  pub token : Str
  pub source : Str

pub record Options : Type 0 where
  pub collapse_numeric_ids : Bool
  pub default_host : Str

unfoldable pub all : (ℕ → Bool) → Str → Bool
all p [] = true
all p (c ∷ s) = p c && all p s

-- `n` bytes that pass the test, and then what `rest` says of the others.
unfoldable pub run_of : (ℕ → Bool) → ℕ → (Str → Bool) → Str → Bool
run_of p zero rest s = rest s
run_of p (suc n) rest [] = false
run_of p (suc n) rest (c ∷ s) = p c && run_of p n rest s

unfoldable pub dash_then : (Str → Bool) → Str → Bool
dash_then rest [] = false
dash_then rest (c ∷ s) = c == b'-' && rest s

-- uuidRe
unfoldable pub is_uuid : Str → Bool
unfolding run_of dash_then is_hex
is_uuid = run_of is_hex 8 (
    dash_then (
      run_of is_hex 4 (
        dash_then (
          run_of is_hex 4
            (dash_then (run_of is_hex 4 (dash_then (run_of is_hex 12 (λ s. length s == 0)))))))))

-- hexRe
unfoldable pub is_long_hex : Str → Bool
unfolding all is_hex
is_long_hex s = all is_hex s && (leb 24 (length s) && leb (length s) 64)

-- base64Re
unfoldable pub is_base64 : Str → Bool
unfolding all is_upper is_lower is_digit
is_base64 s =
    all (λ c. is_upper c || (is_lower c || (is_digit c || (c == b'_' || c == b'-')))) s
    && leb 22 (length s)

-- digitsRe
unfoldable pub is_digits : Str → Bool
unfolding all is_digit
is_digits s = all is_digit s && leb 1 (length s)

-- hasLetterAndSeparator, on ASCII
unfoldable pub has_letter_and_separator : Str → Bool
unfolding is_upper is_lower is_digit
has_letter_and_separator s =
    any (λ c. c == b'-' || c == b'_') s
    || any is_lower s && (not (any is_upper s) && not (any is_digit s))

-- The test of the switch: the segment is an identifier.
unfoldable pub is_id : Options → Str → Bool
unfolding is_uuid is_long_hex is_base64 is_digits has_letter_and_separator
is_id opts s =
    is_uuid s
    || (is_long_hex s
        || (is_base64 s && not (has_letter_and_separator s)
            || opts.collapse_numeric_ids && is_digits s))

-- The segments that the loop passes over.
unfoldable pub is_fixed : Str → Bool
unfolding has_prefix str_eq
is_fixed s = length s == 0 || (has_prefix s (codes "{") || str_eq s (codes "**"))

abbrev pub id_token : Str
id_token = codes "{id}"

-- The loop over the segments: the segments, and the variables that are added.
unfoldable pub collapse_loop : Options → List Str → List Str × List PathVar
unfolding is_fixed is_id
collapse_loop opts [] = ([], [])
collapse_loop opts (s ∷ parts) =
    let rest = collapse_loop opts parts in
    if is_fixed s
    then (s ∷ rest.0, rest.1)
    else if is_id opts s
    then (id_token ∷ rest.0, record { token = id_token; source = s } ∷ rest.1)
    else (s ∷ rest.0, rest.1)

-- collapseIDSegments: the path, the flags and the variables
unfoldable pub collapse_id_segments :
    Str → Options → List Str → List PathVar → Str × List Str × List PathVar
unfolding collapse_loop append_flag join split str_eq
collapse_id_segments p opts flags vars =
    let found = collapse_loop opts (split b'/' p) in
    if str_eq p (codes "/") || str_eq p [] then (p, flags, vars) else (
      join (codes "/") found.0,
      (if length found.1 == 0 then flags else append_flag flags (codes "collapsed_literal_id")),
      vars ++ found.1,
    )
