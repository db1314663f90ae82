-- ===== src/Lib.antt =====
-- The Cognitive Execution Engine: deterministic workflows of steps that are gated by probes, guarded by
-- circuit breakers, undone by compensations, run in parallel branches, and suspended until somebody
-- resumes them.
--
-- The parts, and the files that model them:
--
-- - Entities and Value: the records of entities/entities.go, and Go's `any` as far as JSON documents and
--   the engine make such values. Value/Number has floats as plus or minus infinity or m / 2 ^ d; there
--   is no NaN. Maps has `map[string]V` as a list of entries: an iteration visits them in the order of
--   the list, where Go fixes no order. A nil map is an empty one.
-- - Execution/Types: the types of execution/*.go, `NewEngine` and the setters. The world outside the
--   engine is a type parameter `W`; actions, probes, stores and authorizers are functions that read and
--   change it. `Host` holds what the engine takes from Go's library: the text of a value under %v and
--   the random pointer. The observer is the list of the events that it was told.
-- - Execution/Exec: a function that changes a state and ends in a value, an error or a panic.
-- - Execution/Errors and Execution/Texts: the error types and their messages. `quote` is %q for
--   printable text, with every character outside ASCII taken to be printable.
-- - Execution/Engine: `Engine.Run` and `Engine.runFrom` of execution/engine.go, one function for each
--   kind of step and for what follows it. `Execution.Engine.loop` recurses on the rounds that the step
--   limit leaves, and `run_from` on the levels that the depth limit leaves: the limits are those that
--   the source counts, so that no other fuel is needed.
-- - Execution/Failure: `onFailure`, `merge` and `tail`. Execution/Compensate: execution/compensate.go.
-- - Execution/Parallel and Execution/Join: execution/parallel.go. The branches run one after another in
--   declaration order, which is one of the schedules of the goroutines; what the step comes to is a
--   function of their outcomes by index.
-- - Execution/Suspend, Execution/Resume and Execution/MemoryStore: execution/suspend.go,
--   execution/authorize.go and `Engine.ResumeAs`. A store is a record of operations; `as_store` is the
--   store in memory as the engine sees it.
-- - Sandbox, Scorecard and Diagnostics: sandbox/sandbox.go, and the counters of
--   scorecard/scorecard.go and diagnostics/diagnostics.go, without the clock and the printed texts.
-- - Stdlib: the factories of stdlib/stdlib.go (Actions) and the comparison that they share (Compare).
-- - Registry: registry/registry.go, which registers the workflows and the policies of a domain with the
--   engine and its intents with the router.
-- - Manifest: manifest/manifest.go, from the decoded file to a domain; `json.Unmarshal` is a parameter.
--   Manifest/ValidateFile is `Validate` of manifest/validate.go, Manifest/Validate its checks of one step,
--   and Manifest/Graph the graphs that it searches, with Manifest/FindCycle for `findCycle` and
--   Manifest/Reach for `walk`. A function returns the issues that it adds to the report. The searches
--   recurse on fuel, one unit for each node and for `walk` one more: that this is enough is a lemma of
--   Manifest/FindCycle/Visits and of Manifest/Reach/Enough. Manifest/Report prints a report.
-- - Llminjector: llminjector/injector.go, in which what a model read from a text is checked against a
--   schema and marked in the context. An extractor is a function that reads and changes the world.
-- - Replay: replay/replay.go. Replay/Records has the recording, the recorder and the player, Replay/Probes
--   and Replay/Extractions what they do at a probe and at an extraction, and Replay/Compare the comparison
--   of a recording with a run. `json.Marshal` and the clock are parameters. A probe that is recorded or
--   played returns a result with an error beside it, if there is one; `Prober` of Execution/Types has one
--   of the two, since the engine does not read a result beside an error.
-- - Bench: bench/bench.go, a suite of inputs that is run with a scorecard, and the board of the results. The
--   sort is by insertion; ratios are compared as fractions.
-- - Policydiff: `Compare` of policydiff/policydiff.go, which loads two manifests with Manifest/Load and
--   Registry, runs them with Execution/Engine, and classifies what Replay/Compare finds.
-- - Catalog: catalog/catalog.go, the plugins of a third party that are read, checked with
--   Manifest/ValidateFile and installed. Paths, files and JSON are the operations of a record `Os`.
-- - Intentrouter: intentrouter/router.go, which finds the intent that a text is closest to, by its words
--   or by vectors. float64 is a parameter with the operations that the router uses.
-- - Execution/Contract: what a store promises the engine, as a record of laws over the map of the states
--   that it holds; Execution/MemoryStore/Promises and Filestore/Refines fill it. Execution/Exec/Hoare says
--   what holds after a call that returns or fails.
-- - Filestore: filestore/filestore.go, suspended runs as files. `Disk` is what it uses of `os`,
--   `path/filepath`, `crypto/rand` and `encoding/json`; `IsLawful` in Filestore/Files is what is documented
--   of those calls, for a directory whose path has no special characters of `Glob`, and `IsHealthy` in
--   Filestore/Healthy says that they do not fail. Tests/Disks has a disk in memory with both.
-- - Httpapi: httpapi/httpapi.go, the three routes over the engine. A request is a value of a type that is a
--   parameter, with the decoding of its body; a response is the status and the body that are written. Each
--   of the three handlers asks `identify` itself, as in the source.
-- - Draft: `Draft` of draft/draft.go, which asks a model for a manifest until it has no error. The recursion
--   is on the attempts that are left.
--
-- Not modelled: locks and setters that run beside a run, actions that change the map that they are
-- given, the first prompt of a draft, the printed reports of the counters, of Bench and of Policydiff,
-- the mux and the headers of HTTP, the HTTP clients of models and of vectors, and the command line,
-- which hold the parts above together or are input and output.
mod Prelude
pub mod Maps
pub mod Value
pub mod Entities
pub mod Execution
pub mod Sandbox
pub mod Scorecard
pub mod Diagnostics
pub mod Stdlib
pub mod Registry
pub mod Manifest
pub mod Llminjector
pub mod Replay
pub mod Bench
pub mod Policydiff
pub mod Catalog
pub mod Intentrouter
pub mod Draft
pub mod Filestore
pub mod Httpapi
mod Tests
