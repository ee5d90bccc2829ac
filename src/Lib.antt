-- ===== src/Lib.antt =====
-- GPU Infra: staged judging of GPU kernels, and the frontier of the best runs per workload.
--
-- A task (src/kernel_infra/contracts.py) declares workloads, a comparison and stages. A run executes
-- the stages of a task on a candidate (runner.py) under a store of run directories (store.py). Each
-- stage's judge writes a result that is validated and then merged into the result of the run
-- (results.py), and the results of all runs of a task give its frontier (frontier.py). A diagnosis
-- sets the states of the runs against what the broker says of its jobs (diagnostics.py). A fleet
-- routes runs to the node that fits best (fleet.py).
--
-- Which file models what:
--   Prelude: tests on numbers and texts, lists, dictionaries as association lists, code that raises,
--     integers, stable sorting.
--   Json, Fault: decoded JSON and the exceptions. A float is a parameter type with its operations
--     (`Floats`), since its arithmetic is Python's.
--   Contracts: `_expect_object` to `_optional_timeout` in Values, the dataclasses in Spec,
--     `_parse_stage` in Stage, `parse_task` and `load_task` in Task. SHA-256, path resolution
--     and `str` are the parameter `Platform`.
--   Results: `validate_stage_result` in Validate, `aggregate_run_result` in Aggregate.
--   Frontier: the selection of results in Candidates, the reduction in Reduce; Aggregated says which
--     results the runner writes.
--   Store: the directories under `runs` as a dictionary in Types, the methods of `RunStore` in Ops.
--     A crash between two writes is not modelled, and neither are files that do not decode.
--   Runner: the coroutines `_run_stage` in Stage and `_run` in Execute, as actions on a `World` that
--     return or raise and keep what they wrote. What the operating system, the broker's client and
--     the judge do in a stage is a `Script`; the clock, the regular expressions and texts of numbers
--     are the record `Python`. Cancellation is an exception that any `await` of a script may raise.
--     Interrupt is `_interrupt_process`, over what its signals and waits meet.
--     Manage has `submit`, `wait`, `cancel`, `close` and the recovery at the start of the manager.
--   Services: `load_service_spec` of service_contracts.py and the check of its URL in
--     service_attestation.py in Spec, where the parser of URLs is a parameter, and the store of
--     deployments (service_store.py) in Deployments.
--   Diagnostics: `_classify_run` of diagnostics.py in Jobs and Classify, the broker's status in
--     Broker and `build_diagnosis` in Report. The calendar (`datetime`) and `str` are the record `Calendar`; a
--     reason is the constructor of its message.
--   Fleet: of fleet.py, the dataclasses and patterns in Types, the catalog and the endpoint map in
--     Catalog, `parse_locator` in Locator, `select_node` in Selection and `plan_batch_nodes` in
--     Batch, the paths of archives in Paths, `_validate_artifact_manifest` in Manifest and
--     `receive_artifact_export` in Artifacts. The status of a node is what `_node_status` of
--     server.py writes; an archive is its list of members, and the digest of a set of files and what
--     `json.loads` makes of a text are arguments.
--   Examples: concrete inputs.
--
-- Every loop of the modelled code is over a list that is there from the start, or a count, so each model
-- is a structural recursion and no fuel is needed.
--
-- Not modelled: the command line, sockets, the copying of candidates, file modes and temporary
-- files, the logs, what a signal does to a process, the life cycle of services, ssh, the transport
-- of bundles, the export of artifacts, route receipts and snapshots of a fleet, and the judge
-- adapters.
pub mod Prelude
pub mod Json
pub mod Contracts
pub mod Results
pub mod Frontier
pub mod Fault
pub mod Store
pub mod Examples
pub mod Runner
pub mod Services
pub mod Diagnostics
pub mod Fleet
