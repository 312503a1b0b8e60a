-- ===== src/Monitor/Notes.antt =====
-- The small functions of internal/monitor/run.go: lists of texts that are kept once, the map of the ETags,
-- and what is read of an answer that is a list.
use api_integrity_tool.Base.{
  not, ◌&&◌, Option, none, some, List, [], ◌∷◌, ◌++◌, if◌then◌else◌, any, Str, str_eq, str_lt,
  is_empty, sort_by,
}
use api_integrity_tool.Monitor.Source.{Commit, Release, Answer}

-- appendUnique
unfoldable pub append_unique : List Str → Str → List Str
unfolding str_eq
append_unique list s = if any (λ e. str_eq e s) list then list else list ++ s ∷ []

-- appendUniqueAll
unfoldable pub append_unique_all : List Str → List Str → List Str
unfolding append_unique
append_unique_all list [] = list
append_unique_all list (s ∷ more) = append_unique_all (append_unique list s) more

-- The loop of mergeStrings, with the texts that it has taken.
unfoldable pub merge_loop : List Str → List Str → List Str
unfolding append_unique
merge_loop out [] = out
merge_loop out (s ∷ rest) = merge_loop (if is_empty s then out else append_unique out s) rest

-- mergeStrings
unfoldable pub merge_strings : List Str → List Str → List Str
unfolding merge_loop sort_by str_lt
merge_strings a b = sort_by str_lt (merge_loop [] (a ++ b))

unfoldable pub get_etag : Str → List (Str × Str) → Str
unfolding str_eq
get_etag k [] = []
get_etag k ((j, tag) ∷ rest) = let onward = get_etag k rest in if str_eq j k then tag else onward

unfoldable pub set_etag : Str → Str → List (Str × Str) → List (Str × Str)
unfolding str_eq
set_etag k tag [] = (k, tag) ∷ []
set_etag k tag ((j, old) ∷ rest) =
    let onward = set_etag k tag rest in if str_eq j k then (k, tag) ∷ rest else (j, old) ∷ onward

-- The first release that is neither a draft nor a prerelease.
unfoldable pub stable_tag : List Release → Str
stable_tag [] = []
stable_tag (r ∷ rels) =
    let rest = stable_tag rels in if not r.draft && not r.prerelease then r.tag_name else rest

abbrev pub or_empty {ℓ} : {A : Type ℓ} → Option (List A) → List A
or_empty none = []
or_empty (some xs) = xs

-- The list that a call returns, when it has no error.
abbrev pub listed {ℓ} : {A : Type ℓ} → Answer (List A) → List A
listed ans = elim ans.error [ none ↦ or_empty ans.value | some e ↦ [] ]

abbrev pub first_sha : Str → List Commit → Str
first_sha ref [] = ref
first_sha ref (c ∷ commits) = c.sha

abbrev pub or_head : Str → Str → Str
or_head [] s = s
or_head (c ∷ r) s = c ∷ r
