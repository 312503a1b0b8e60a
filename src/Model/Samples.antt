-- ===== src/Model/Samples.antt =====
-- Data that the tests of several parts share.
use api_integrity_tool.Base.{false, none, [], Str, codes, pos}
use api_integrity_tool.Model.Severity.{Severity}
use api_integrity_tool.Model.Repo.{RepoRef, Upstream, implementation}
use api_integrity_tool.Model.Decision.{Decision, later, free_text}
use api_integrity_tool.Model.Finding.{Finding, FindingStatus}

abbrev pub billing_repo : RepoRef
billing_repo = record {
  provider = codes "github";
  git_host = codes "github.com";
  owner = codes "Acme";
  name = codes "billing";
  subpath = [];
  ref = [];
}

abbrev pub sample_finding : Str → Severity → FindingStatus → Finding
sample_finding fp severity status = record {
  id = codes "f_1";
  fingerprint = fp;
  signal = codes "spec.undocumented";
  severity = severity;
  confidence = 90;
  corroborated = false;
  title = codes "GET /v1/charge";
  detail = [];
  suggestion = [];
  host = codes "api.acme.com";
  repo = billing_repo;
  commit_sha = [];
  base_sha = [];
  head_sha = [];
  compare_url = [];
  evidence = [];
  endpoints = [];
  first_seen_at = 1;
  last_seen_at = 1;
  occurrences = 1;
  status = status;
  status_note = [];
  status_by = [];
  status_at = none;
  muted_until = none;
}

abbrev pub sample_upstream : Str → Upstream
sample_upstream path_prefix = record {
  host = codes "api.acme.com";
  repo = billing_repo;
  path_prefix = path_prefix;
  role = implementation;
  priority = pos 0;
  source = codes "cli";
  confidence = 100;
  note = [];
  status = codes "active";
  created_at = 1;
  updated_at = 1;
}

abbrev pub sample_decision : Decision
sample_decision = record {
  host = codes "api.acme.com";
  kind = later;
  reason = free_text [];
  decided_by = codes "cli";
  decided_at = 0;
  expires_at = none;
}
