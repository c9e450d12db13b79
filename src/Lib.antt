-- ===== src/Lib.antt =====
-- ExamSage runs one agent at a time over a student's course files. This library models the three
-- parts of the program that must survive a crash: the runtime, which owns the agent runs
-- (exam_predictor/runtime), the workspace store, which owns the course folders, their manifests and
-- the approvals to send them (exam_predictor/workspace), and the evidence store, which owns the
-- parts into which the course files are cut, the claims on them and the evidence published for them
-- (exam_predictor/evidence).
--
-- Runtime. Runtime/Models is runtime/models.py (RunStatus, EventType, AgentEvent, RunSnapshot);
-- Runtime/Control is RunControlRegistry of runtime/control.py, and Control/Refines its abstract
-- view; Runtime/Store, with Store/Workspaces and Store/Recovery, is RuntimeStore of
-- runtime/store.py, a database of two tables with each method as one transaction;
-- Runtime/Coordinator is what clients ask of RuntimeCoordinator (runtime/coordinator.py:
-- submit_message, stop, resume, pause_all, shutdown, start, delete_settled_workspace_runs,
-- _start_next), and Coordinator/Execute its worker (_loop, _execute, _invoke_resume, _emit). A call
-- is a method: a function of the coordinator's state to a result and the next state, where what was
-- written before an exception stays written. The worker's turn is cut where the code gives up its
-- lock: take_command goes from the queue up to graph.invoke, finish_execution is what follows its
-- return. Coordinator/Reach has the step relation: any call by any client, any event of the graph,
-- any end of graph.invoke, in any order, behind a start on a database that a former process left.
-- The other files below Coordinator hold the invariant and the lemmas about each operation.
--
-- Evidence. Evidence/Models is evidence/models.py (PartState, SourcePartPlan, EvidenceCitation,
-- EvidenceUnit); Evidence/Tokens is EvidenceStore._claim_token; Evidence/Store holds the five
-- tables, _transaction and the reads of EvidenceStore (evidence/store.py); Store/Claims claims,
-- resumes, pauses, requeues and recovers parts (claim_parts_with_tokens, mark_running,
-- resume_claim, pause_claim, publication_token, retry_failed_parts, recover_unfinished);
-- Store/Attempts is record_attempt and fail_exhausted_claim; Store/Publication is publish_evidence,
-- cached_evidence and reuse_cached_evidence; Store/Fencing is about what a claim token protects,
-- Store/Claiming about what a claim hands out, Store/Republication about a publication that is
-- repeated, Store/Releasing about the recovery.
--
-- Scheduler. Evidence/Scheduler is the work of EvidenceScheduler on one claimed part
-- (evidence/scheduler.py: _run_part_guarded, _run_part, _record_failed,
-- _record_recoverable_route_error, _pause_claim, _retry_delay, _pending_count). What the route, the
-- guard, the artifact store, the provider, the validator, the clocks, the stop requests and
-- _wait_for_retry answer is a World, with one Round per attempt; a Work counts the calls of the
-- provider and keeps the names of the emitted events. The validator is EvidenceValidator.validate
-- of exam_predictor/evidence/study_map.py with the provider as its repairer, as
-- worker/evidence_runtime.py builds it: a second call of the provider, where the policy allows a
-- repair and ten seconds are left; what _validate_once makes of a text is an argument.
-- Scheduler/Bounds is about the number of calls, Scheduler/Pending is about the pending count.
--
-- Evidence/Policy is representative_ordinals of evidence/policy.py.
--
-- Workspace. Workspace/Models is workspace/models.py; Workspace/Paths is its
-- normalize_relative_path, with PurePosixPath as the split of a text at the slashes, without empty
-- segments and single dots. Workspace/Store holds the tables of workspace/store.py and the guards;
-- each public method of WorkspaceStore is one function, a transaction that its locks serialize.
-- Store/Events is _validated_event_payload and _insert_event; Store/Creation the workspaces and the
-- requests that create them (create_workspace, claim_creation, create_workspace_with_initial_job
-- and the queries); Store/Manifests is commit_scan and the reads, Manifests/Changes set_inclusion,
-- the three mark methods, approve and record_access_verified; Store/Jobs create_job, start_job,
-- append_progress, fail_job, update_job and the recovery; Store/Authority get_approval,
-- transmission_authority_snapshot and hold_transmission_authority; Store/Removal mark_deleting,
-- delete_workspace_rows and the clean-up queue. The files below Jobs, Authority and Removal hold
-- the theorems: Jobs/Reach has the databases that calls reach, Jobs/Reports and Jobs/Capped the
-- progress events in them, Authority/Revoked and Authority/Granted say when an approval can be
-- held. The scanner and the service call the store; what they pass is an argument. An uuid that the
-- code draws is an argument too, and where a deletion is asked for, what pathlib says of the path.
--
-- Transmission. Workspace/Transmission is the gate of workspace/transmission.py through which the
-- bytes of approved files leave: its read grants and open_approved (with _hold_current_authority,
-- _grant_remains_authorized, _entry_matches, _root_matches and _mark_changed);
-- Transmission/Authorize is authorize. They run on the workspace store: a Gate is the database and
-- the grants. What the clock, the file system and the scanner answer in one call is a record,
-- Reading or Request. A read that open_approved allows returns what the scanner says of the copied
-- bytes. Transmission/Once is about the tokens, Transmission/Bound about what may leave,
-- Authorize/Requested about the sources of a request.
--
-- Common has what all share: results and methods, tables looked up by a key, ORDER BY as a stable
-- insertion sort, list lemmas, and Common/Keeps, the rules by which a method keeps a predicate on
-- its state.
--
-- A time is a natural number, since instants in UTC are compared as their ISO texts are, and one
-- call reads its clock once. What the code asks of its surroundings is an argument: the drawn run
-- id, the clock, the answer of the workspace repository, the restored provider profiles, a
-- checkpoint of the graph, and the graph's outcome. A payload is a list of text fields. The
-- parameters of the evidence store are a record Env: SHA-256, the canonical JSON of a unit, the
-- screen of texts by regular expressions and EvidenceStore._locator_contains. A result about tokens
-- assumes that the digest has no collisions.
--
-- Not modelled: SQLite itself, the migration of its schema, the locks between processes, threads
-- below the granularity of the locks, what ends the worker's thread by an exception (the set-up of
-- the checkpoint saver and of the graph in _loop, a result of the graph that is no dict, a store
-- error in a handler), the wait for the thread in shutdown, the row validation by pydantic, the
-- snapshot that stop and resume return, the vault and the provider sessions; of the evidence store
-- the plans' upsert, the invalidations, the deadlines and the study map snapshots; of the scheduler
-- the frontier of threads; of the rest of the program the agent's graph, the providers, the
-- workspace service with its scanner, the web interface and the document readers. A negative limit
-- of a claim is not a natural number, and stands outside the model. Every loop runs over a list,
-- but the retries, which run over the attempts that the policy leaves.
pub mod Common
pub mod Runtime
pub mod Workspace
pub mod Evidence
