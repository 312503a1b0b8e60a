-- ===== src/Monitor/Source.antt =====
-- The answers of internal/ghsource/ghsource.go that a check reads, and the repository host itself.
use api_integrity_tool.Base.{ℕ, Bool, true, false, Option, List, Str}

-- What errors.As tells apart.
pub data ErrorKind : Type 0 where
  not_found forbidden rate_limited too_large bad_ref unauthenticated failed : ErrorKind

-- An error, with its text behind Redact.
pub record SourceError : Type 0 where
  pub kind : ErrorKind
  pub text : Str

abbrev pub is_not_found : SourceError → Bool
is_not_found e = elim e.kind [ not_found ↦ true | _ ↦ false ]

abbrev pub is_rate_limited : SourceError → Bool
is_rate_limited e = elim e.kind [ rate_limited ↦ true | _ ↦ false ]

abbrev pub is_bad_ref : SourceError → Bool
is_bad_ref e = elim e.kind [ bad_ref ↦ true | _ ↦ false ]

pub record RepoId : Type 0 where
  pub owner : Str
  pub name : Str

pub record Rate : Type 0 where
  pub limit : ℕ
  pub remaining : ℕ

pub record Meta : Type 0 where
  pub etag : Str
  pub not_modified : Bool
  pub rate : Rate
  pub calls : ℕ

pub record Repo : Type 0 where
  pub default_branch : Str
  pub pushed_at : ℕ
  pub archived : Bool

pub record Commit : Type 0 where
  pub sha : Str
  pub message : Str
  pub html_url : Str

pub record FileChange : Type 0 where
  pub filename : Str
  pub patch : Str

pub record Compare : Type 0 where
  pub status : Str
  pub head_sha : Str
  pub html_url : Str
  pub commits : List Commit
  pub files : List FileChange
  pub files_truncated : Bool

pub record Release : Type 0 where
  pub tag_name : Str
  pub body : Str
  pub html_url : Str
  pub draft : Bool
  pub prerelease : Bool

-- What a call returns: its value, which may be nil, its metadata, and its error.
pub record Answer {ℓ} (A : Type ℓ) : Type ℓ where
  pub value : Option A
  pub meta : Meta
  pub error : Option SourceError

-- GitHubSource, as far as a check calls it. `repo` takes the ETag of the condition, `compare` the base, the
-- head, the most files and the path prefix, `releases` the size of the page, `list_tree` the ref and
-- the path prefix.
pub record GitHubSource : Type 0 where
  pub repo : RepoId → Str → Answer Repo
  pub compare : RepoId → Str → Str → ℕ → Str → Answer Compare
  pub commits_since : RepoId → Answer (List Commit)
  pub releases : RepoId → ℕ → Answer (List Release)
  pub list_tree : RepoId → Str → Str → Answer (List Str)
