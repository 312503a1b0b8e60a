-- ===== src/Lib.antt =====
-- api-integrity-tool: a model of the program's core in a cubical type theory.
--
-- The program indexes the outbound API calls of a repository, links each API host to the
-- repository behind it, and checks those upstreams for changes that would break the calls.
--
-- Base holds what the parts share: Boolean tests, lists measured by native numbers, Go strings as
-- lists of bytes (Base.Text, Base.Strings), Go's sort functions as a stable insertion sort (Base.Sort), orders
-- with tie breaks (Base.Order), lists with distinct keys (Base.Distinct).
-- Model is internal/model/model.go: severities, repository references, links, decisions, findings.
-- Store is internal/store/store.go: the state document. Each operation is a function of the time
-- and the state file, through Update, which reads, changes, orders and writes in one step.
-- Index is internal/index: the calls with their canonical order (Index.Calls), the host summary
-- (Index.Hosts) and the merge of a fresh scan into the previous index (Index.Merge).
-- OpenApi is internal/monitor/analyze/openapi: the parsed specification (OpenApi.Doc), path templates
-- (OpenApi.Template), the diff of two operations (OpenApi.Operation) and of two documents
-- (OpenApi.Diff). The sentence `Detail` of a change is left out, and so is the YAML parser.
-- Normalize is internal/normalize/url.go: paths (Normalize.Path), tokens of placeholders
-- (Normalize.Token), segments that are identifiers (Normalize.Ids), segments and sentinels
-- (Normalize.Segments), buildPath (Normalize.Build), hosts and ports (Normalize.Host, Normalize.Port)
-- and Canonicalize (Normalize.Canonical), to which url.Parse is a parameter.
-- Upstream is internal/upstream: ParseRepoRef (Upstream.Ref), to which url.Parse is a parameter, and the
-- lookup and the guesses of the curated hosts (Upstream.WellKnown), whose table is a parameter.
-- Linker is internal/linker/linker.go over the store, with the links and decisions of
-- internal/config/config.go (Linker.Config): host requests (Linker.Requests), SyncConfig and the loop of
-- AutoLink (Linker.Linking, Linker.Auto), Link, Unmonitor and Defer (Linker.Auto), and Prompt
-- (Linker.Prompt), whose terminal is a list of lines. An operation reads the time once, and a panic of
-- ParseRepoRef is a value that is handed on like its errors.
-- Monitor.Score is internal/monitor/score.go: confidence, demotion and the ceiling of a severity.
-- Monitor.Patch is internal/monitor/analyze/diff.go: the hunks of a unified diff and their lines.
-- Monitor.FileClass is internal/monitor/analyze/fileclass.go: the class and the weight of a changed file.
-- Monitor.Source is what internal/ghsource/ghsource.go promises a check: a record of calls, which the
-- network client fills. Monitor.Targets, Monitor.Notes, Monitor.Check,
-- Monitor.Select and Monitor.Run are
-- internal/monitor/run.go: the calls that depend on an upstream, checkUpstream, what a run covers and
-- tells as new, and Run over the store. The analyzers are an interface to checkUpstream. Of
-- what the checks of a run share, the loop hands on the bytes that were taken from the budget for
-- specifications and the map of ETags, into which a check writes in place. Monitor.Match is internal/monitor/target.go, less what it makes by
-- regular expressions: targets and their search in text. Monitor.Removals is analyzeDiff of
-- internal/monitor/analyzers.go, and Monitor.Announce what messages and versions announce.
--
-- Times are instants counted from Go's zero time, and the clock is an argument. Confidences that
-- are stored have two decimals, so they are counted in hundredths. A Go map that is only looked up
-- is a list of pairs. Texts that the program folds to lower case, and the names
-- that toSnake makes placeholders of, are taken to be ASCII: its Unicode letters and digits are not.
-- The float64 operations of a score are a parameter. Loops are recursions on lists, but for
-- the loop that halves a byte while it stands twice in a row: its fuel is the length of the text.
--
-- Not modelled: file system and lock calls, JSON and YAML encoding, network access, the command
-- line, the MCP server, the web dashboard, the scanner of source languages with its classifier and
-- file walker, queries, the metadata of git, the coverage report, the analyzers other than analyzeDiff,
-- and of targets what regular expressions make.
pub mod Base
pub mod Index
pub mod Linker
pub mod Model
pub mod Monitor
pub mod Normalize
pub mod OpenApi
pub mod Store
pub mod Upstream
