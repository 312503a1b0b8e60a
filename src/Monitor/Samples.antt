-- ===== src/Monitor/Samples.antt =====
-- Data that the tests of the monitor share.
use Prim.Native.Nat.{◌/◌}
use api_integrity_tool.Base.{ℕ, ◌*◌, ◌+◌, ltb, leb, codes, [], ◌∷◌, pos}
use api_integrity_tool.Index.Calls.{Call, active, high}
use api_integrity_tool.Monitor.Score.{Floats}

abbrev pub symbolic_call : Call
symbolic_call = record {
  id = codes "c_1";
  fingerprint = codes "f_1";
  host = codes "${sym:base}";
  host_kind = codes "symbolic";
  vendor = [];
  method = codes "GET";
  path = codes "/v1/charge";
  kind = codes "http";
  location = record { file = codes "app.go"; line = 7; column = 1; end_line = 7; function = [] };
  language = codes "go";
  client = codes "net/http";
  confidence = high;
  score = pos 80;
  flags = codes "symbolic_host" ∷ [];
  rest = [];
  lifecycle = record {
    first_seen_scan = [];
    first_seen_commit = [];
    last_seen_scan = [];
    last_seen_commit = [];
    status = active;
    missing_scans = 0;
  };
}

-- Numbers counted in hundredths.
abbrev pub fixed : Floats
fixed = record {
  F = ℕ;
  hundredths = λ n. n;
  times = λ a b. a * b / 100;
  plus = λ a b. a + b;
  over = λ a b. a * 100 / b;
  less = ltb;
  at_most = leb;
  truncated = λ a. a / 100 * 100;
}
