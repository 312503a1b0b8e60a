-- ===== src/Normalize/Build/Keys.antt =====
-- The query keys of internal/normalize/url.go.
use api_integrity_tool.Base.{
  ℕ, refl, ap, str_eq_iff, insert_by, sort_by, Bool, ◌||◌, ◌∙◌, true, if◌then◌else◌, ◌≡◌, ◌≢◌,
  false, not, ◌&&◌, List, [], ◌∷◌, ◌==◌, All, All-sort_by, any, Str, str_eq, str_lt, is_empty,
  split, before_any, arith, Bool-cases, inl, inr, All-split, All-before_any, before_any-All,
  All-trim_space, trim_space, sort_by-IsSortedBy, IsSortedBy, Laws, Laws-key, str-IsOrder,
}
use api_integrity_tool.Normalize.Segments.{has_sentinel}
use api_integrity_tool.Normalize.Build.{note_key, note_keys, query_keys}

-- A byte that ends a key.
abbrev pub IsKeyChar : ℕ → Type 0
IsKeyChar c = (c ≢ b'=') × (c ≢ b'&')

-- A key: not empty, with no value behind it, and with no sentinel of a hole.
abbrev pub IsKey : Str → Type 0
IsKey k = All IsKeyChar k × (is_empty k ≡ false) × (has_sentinel k ≡ false)

key_chars : (s : Str) → All (λ c. (c == b'=') ≡ false) s → All (λ c. c ≢ b'&') s → All IsKeyChar s
key_chars [] h k = tt
key_chars (c ∷ s) h k = (((λ e. ground (arith, h.0)), k.0), key_chars s h.1 k.1)

note_key-All :
    (seen : List Str) (kv : Str)
    → All IsKey seen
    → All (λ c. c ≢ b'&') kv
    → All IsKey (note_key seen kv)
unfolding note_key
note_key-All seen kv h k =
    let key = trim_space (before_any (λ c. c == b'=') kv) in
    let chars = All-trim_space IsKeyChar (before_any (λ c. c == b'=') kv) (
      key_chars (before_any (λ c. c == b'=') kv) (before_any-All (λ c. c == b'=') kv)
        (All-before_any (λ c. c ≢ b'&') (λ c. c == b'=') kv k)) in
    elim (Bool-cases (is_empty kv)) [
      | inl e ↦ rw e h
      | inr e ↦ elim (Bool-cases (not (is_empty key) && not (has_sentinel key))) [
        | inr f ↦ rw (e, f) h
        | inl f ↦ elim (Bool-cases (any (λ s. str_eq s key) seen)) [
          | inl g ↦ rw (e, f, g) h
          | inr g ↦ rw (e, f, g) ((chars, ground (arith, f), ground (arith, f)), h)
        ]
      ]
    ]

note_keys-All :
    (seen kvs : List Str)
    → All IsKey seen
    → All (All (λ c. c ≢ b'&')) kvs
    → All IsKey (note_keys seen kvs)
unfolding note_keys
note_keys-All seen [] h k = h
note_keys-All seen (kv ∷ kvs) h k =
    note_keys-All (note_key seen kv) kvs (note_key-All seen kv h k.0) k.1

IsKey-Laws : Laws IsKey str_lt
IsKey-Laws = Laws-key str-IsOrder (λ (k : Str). k) (λ k h. tt)

any-insert_by :
    (less : Str → Str → Bool) (p : Str → Bool) (x : Str) (ys : List Str)
    → any p (insert_by less x ys) ≡ (p x || any p ys)
unfolding insert_by
any-insert_by less p x [] = refl
any-insert_by less p x (y ∷ ys) = ground (arith, any-insert_by less p x ys)

any-sort_by :
    (less : Str → Str → Bool) (p : Str → Bool) (xs : List Str) → any p (sort_by less xs) ≡ any p xs
unfolding sort_by
any-sort_by less p [] = refl
any-sort_by less p (x ∷ xs) =
    any-insert_by less p x (sort_by less xs) ∙ ap (λ b. p x || b) (any-sort_by less p xs)

-- The text before the first equals sign of a part of a query, without spaces around them.
abbrev pub key_of : Str → Str
key_of kv = trim_space (before_any (λ c. c == b'=') kv)

-- The text is one of the keys.
abbrev pub is_among : Str → List Str → Bool
is_among k = any (λ s. str_eq s k)

-- A text that can be a key: it is not empty and has no sentinel of a hole.
abbrev pub is_usable : Str → Bool
is_usable k = not (is_empty k) && not (has_sentinel k)

usable-congr : (a k : Str) → str_eq a k ≡ true → is_usable a ≡ is_usable k
usable-congr a k e = ap is_usable ((str_eq_iff a k).0 e)

among-congr : (a k : Str) (seen : List Str) → str_eq a k ≡ true → is_among a seen ≡ is_among k seen
among-congr a k seen e = ap (λ x. is_among x seen) ((str_eq_iff a k).0 e)

-- One round, by what it finds of the part, of the key and of the keys before.
among-step :
    (k key : Str) (seen : List Str) (empty usable known : Bool)
    → is_usable key ≡ usable
    → is_among key seen ≡ known
    → (empty ≡ true → usable ≡ false)
    → is_among k
        (if empty then seen else if usable then if known then seen else key ∷ seen else seen)
      ≡ (is_among k seen || (is_usable k && str_eq key k))
among-step k key seen true true known u g h = ground (arith, h refl)
among-step k key seen true false known u g h = ground (arith, u, usable-congr key k)
among-step k key seen false true true u g h = ground (arith, u, g, among-congr key k seen)
among-step k key seen false true false u g h = ground (arith, u, usable-congr key k)
among-step k key seen false false known u g h = ground (arith, u, usable-congr key k)

no_part : (kv : Str) → is_empty kv ≡ true → is_usable (key_of kv) ≡ false
unfolding has_sentinel trim_space before_any
no_part [] h = refl
no_part (c ∷ kv) h = cc

among-note_key :
    (k : Str) (seen : List Str) (kv : Str)
    → is_among k (note_key seen kv) ≡ (is_among k seen || (is_usable k && str_eq (key_of kv) k))
unfolding note_key
among-note_key k seen kv =
    among-step k (key_of kv) seen (is_empty kv) (is_usable (key_of kv)) (is_among (key_of kv) seen)
      refl refl (no_part kv)

among-note_keys :
    (k : Str) (seen kvs : List Str)
    → is_among k (note_keys seen kvs)
      ≡ (is_among k seen || (is_usable k && any (λ kv. str_eq (key_of kv) k) kvs))
unfolding note_keys
among-note_keys k seen [] = ground arith
among-note_keys k seen (kv ∷ kvs) =
    among-note_keys k (note_key seen kv) kvs ∙ rw (among-note_key k seen kv) (ground arith)

no_query : (k : Str) → false ≡ (is_usable k && any (λ kv. str_eq (key_of kv) k) (split b'&' []))
unfolding before_any trim_space str_eq split
no_query [] = refl
no_query (c ∷ k) = ground arith

-- A text is a key of a query exactly when it is not empty, has no sentinel of a hole, and is what stands
-- before the first equals sign of some part of the query between ampersands, less the spaces
-- around it; so no value is a key. The keys are in order.
pub query_keys_lem :
    (raw k : Str)
    → (is_among k (query_keys raw)
        ≡ (is_usable k && any (λ kv. str_eq (key_of kv) k) (split b'&' raw)))
      × IsSortedBy str_lt (query_keys raw)
unfolding query_keys
query_keys_lem [] k = (no_query k, tt)
query_keys_lem (c ∷ raw) k =
    let keys = note_keys [] (split b'&' (c ∷ raw)) in
    let found = note_keys-All [] (split b'&' (c ∷ raw)) tt (All-split b'&' (c ∷ raw)) in
    (
      any-sort_by str_lt (λ s. str_eq s k) keys ∙ among-note_keys k [] (split b'&' (c ∷ raw)),
      sort_by-IsSortedBy str_lt IsKey-Laws keys found,
    )

pub query_keys-All : (raw : Str) → All IsKey (query_keys raw)
unfolding query_keys
query_keys-All [] = tt
query_keys-All (c ∷ raw) =
    All-sort_by str_lt IsKey (note_keys [] (split b'&' (c ∷ raw)))
      (note_keys-All [] (split b'&' (c ∷ raw)) tt (All-split b'&' (c ∷ raw)))
