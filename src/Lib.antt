-- ===== src/Lib.antt =====
-- sensez is a static-analysis tool: it parses a code base, reports findings in five pillars (import
-- cycles, dead code, boundary violations, duplication, design smells), and keeps a memory of them
-- for a language server, an agent gate and a usage log. This library models the parts that decide
-- what is reported and remembered.
--
-- The parts, and the files that model them:
--
-- Report/ models src/report.rs and src/report/: the findings (Report), the smell kinds and pillars
-- with their names (Report/Kinds, Report/Pillar), the caps on a report (Report/Limit, `limit`), and
-- the totals of its header (Report/Totals, `refresh_totals`), and its summary and signature
-- (Report/Summary). Every other part works on the
-- `AnalysisReport` of Report. Of the report's header only the mode and the totals are kept.
--
-- Lsp/ models src/lsp/schedule.rs (Lsp/Schedule: `mark_dirty`, `take_pending`) and the loop of
-- src/lsp/server.rs (Lsp/Server: `queue`, `rescan_all`, `launch_pending`, `apply_result`). The threads
-- that src/lsp/scan.rs starts are the list `in_flight`; the loop handles one of them at a time, so an
-- interleaving is a sequence of steps, the relation `Reach` of Lsp/Server/Soundness/Reachable. The
-- fuel of `launch` is one more than the number of slots, since every scan that it starts takes one.
--
-- Gate/ models the gate of src/mcp: src/mcp/repeats.rs (Gate/Repeats: `retain_allowed`,
-- `suppress_repeated`), src/mcp/gate_state.rs (Gate/State: `update`, `recall`, `remember`) and
-- `triage` of src/mcp/gate.rs, which runs them in turn. Gate/Repeats/Status is the abstract life of
-- one finding, apart from maps and sets.
--
-- Brainz/ models src/brainz: identities of findings (Brainz/Fingerprint and Brainz/Identity for
-- src/brainz/fingerprint.rs and src/fingerprints.rs), pruning by them (Brainz/GateMemory for
-- src/brainz/gate_memory.rs), what changes from scan to scan (Brainz/Aging for src/brainz/aging.rs),
-- what is due for triage (Brainz/Staleness, Brainz/Verdict), how it is triaged (Brainz/Triage for
-- src/brainz/triage.rs: `mark`), what is hidden once accepted (Brainz/Suppression for
-- src/brainz/suppression.rs: `apply_suppressions`) and the usage log with its totals
-- (Brainz/Events for src/brainz/events.rs and src/brainz/events/totals.rs). SipHash is the argument
-- `digest`; a hash is printed with at most 16 digits, which
-- 64 bits fit in. The gate uses Brainz/GateMemory, and so does Diff to name what it keeps.
--
-- Diff/ models src/diff/mod.rs (Diff: `touches`, `add`; Diff/Parse: `from_unified`), src/diff/parse.rs
-- (Diff/Parse: `parse_unified`, `unquote`, `new_hunk_range`) and src/diff/filter.rs (Diff/Filter:
-- `apply`). The canonical form of a path is the argument `canon`, and so are the conversions between
-- text and UTF-8 bytes.
--
-- Graph and DeadCode/ model src/spine/graph/mod.rs and src/spine/ir/import_context.rs (Graph),
-- src/noze/dead_code/reach.rs (DeadCode/Reach:
-- `reach_from`, `walk`) and src/noze/dead_code/confidence.rs (DeadCode/Grade: `grade`). The graph
-- library is a parameter: what it documents of a node's edges is the hypothesis `IsGraph`. The fuel
-- of the walk is the number of roots and edges, as every pop takes one that was pushed.
-- DeadCode/Classes models `dynamic_classes` of src/noze/dead_code/class_entrypoints.rs; its fuel is one
-- more than the number of classes, as every pass but the last adds one.
-- DeadCode/Demand models `inbound` of src/noze/dead_code/demand.rs, which names a module is asked for;
-- a module's re-exports are queued again only when it is asked for more, at most once for every name
-- and flag, and the fuel counts what is queued.
--
-- Cycles models src/noze/cycles.rs (`detect`, `shortest_cycle`). The components of the graph library
-- and the glob set are arguments. The fuel of the search is one more than the number of modules,
-- as it queues none twice; unwinding takes as many steps as there are recorded parents.
--
-- Impact models src/spine/impact/mod.rs (`reachable_files`, `affected_files`). Its fuel is the number
-- of changed modules and modules of the graph, as none is queued twice.
--
-- Smells/ models src/noze/smells/union_find.rs. The fuel of `find` is one more than the length of the
-- slice, which no path of a forest exceeds. Smells/Clusters says what trees of linked nodes are, and
-- Smells/Cohesion models src/noze/smells/cohesion.rs (`lcom_components`) on them.
--
-- Paths models what the source uses of the standard library's paths: their components and their order.
-- Maps are association lists in any order; where the source goes through one in the order of its
-- keys and the order matters, the model sorts it.
--
-- Prelude/ holds what they share: Boolean tests, lists, maps and sets as association lists, a stable
-- sort, and text. Numbers are unbounded except where it matters: generations and deferral times
-- saturate at 64 bits, sums of numbers that an event of the usage log or a hunk carries wrap around at
-- 64 bits, and subtraction stops at 0 where the source saturates. Counters that move by one are
-- taken not to reach 2 ^ 64.
--
-- Not modelled: parsing and the language profiles (src/spine/parser, src/profiles), the detectors
-- that measure parsed units, configuration, JSON and the protocols around the loops, files and locks,
-- the glossary texts, and everything that embeds or ranks text with floating-point numbers. They
-- produce or print the values that are modelled here.
pub mod Brainz
pub mod Cycles
pub mod DeadCode
pub mod Diff
pub mod Gate
pub mod Graph
pub mod Impact
pub mod Lsp
pub mod Paths
pub mod Prelude
pub mod Report
pub mod Smells
