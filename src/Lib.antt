-- ===== src/Lib.antt =====
-- A verification library for the durable workers of the backend and for the identity of the entities
-- that they work on: the agent runtime, the synchronization of catalogues, the merging of entities,
-- and the counters of the community. Paths are from the repository's root.
--
-- The program. A campaign (src/apps/sync/services/campaign_service.py) copies a provider's catalogue:
-- it discovers pages of identifiers as work items, fetches the items in batches, lets AI services
-- normalize and enrich them, reconciles records that the provider no longer lists, and reviews. Its
-- status follows a state machine (src/apps/sync/services/campaign_state.py); each step runs under a
-- lease and is bounded, so that a scheduler can call it again. Single imports are jobs with leases of
-- their own (src/apps/sync/services/sync_job_service.py). The AI services run as agent runs of durable
-- steps (src/apps/ai/runtime): state machines for runs and steps, an executor of one step that calls a
-- model or a tool, a budget, checkpoints and a transcript. Entities of different providers that are the
-- same work are merged by redirects (src/apps/index/services/resolution.py), which a split takes back. A
-- match candidate is decided once: by hand, by an AI answer that passes a policy
-- (src/apps/ai/services/matching.py), by a batch over the pending proposals
-- (src/apps/sync/services/match_apply_service.py), or by an official identifier
-- (src/apps/index/services/identity.py). All of these call `decide_candidate`, and that calls `merge`.
-- Users react to posts and comments and discuss them (src/apps/community/services); counters of
-- reactions and replies are kept beside the rows.
--
-- The files.
--   Base and its children: tests, lists, tables of rows (a row is found by its key, and
--     `filter(pk=k, p).update(f)` is `update_one`, which tells whether one row was written), stable
--     sorting for `order_by`, and integers.
--   Agent.Model: the rows of src/apps/ai/models/agent.py.
--   Agent.Machine: src/apps/ai/runtime/state_machine.py. `run_transition` and `step_transition` take the
--     worker's copy and the table, and give the answer, the copy and the table. Race, Lifecycle, Steps and
--     StepLife hold the proofs.
--   Agent.Budget, Agent.Checkpoint, Agent.Transcript: budget.py, checkpoint.py and transcript.py there.
--   Agent.Registry: the registries of src/apps/ai/tools/registry.py and src/apps/ai/skills/registry.py.
--   Agent.Executor: src/apps/ai/runtime/executor.py. Each early return of `_execute_tool` and
--     `_execute_model` is a clause of a stage function in ToolStep and ModelStep; Rows has the rows; Once,
--     Finish and Unkeyed hold the proofs.
--   Agent.Loop: src/apps/ai/runtime/agent_loop.py, its recovery and its ends of runs and steps; Loop.Calls
--     has the rows that a turn and its tool calls write, Loop.Turn the turn and the loop, Loop.Ends their end.
--   Job: SyncJobService, each method a `Call` with its guard and its write. Lease and Progress hold the
--     proofs.
--   Campaign.Model: the rows of src/apps/sync/models.py; Campaign.Create: `create_campaign`;
--     Campaign.State: the state machine; Campaign.Control: `pause`, `resume_paused`, `cancel`, `resume`.
--   Campaign.Items: `_skip_item`, `_fail_item` and the success of an item; Campaign.Fetch: `_fetch`.
--   Campaign.Discovery: `_discover` with the watermark and the delta window.
--   Campaign.Stages: `_normalize`, `_enrich`, `_reconcile_provider_records`, `_write_quality_report` and
--     `_promote_watermark`; Campaign.Run: `run` and `_fail`. Below each stand the proofs about it.
--   Catalogue.Model: the rows of src/apps/index/models/entities.py and resolution.py, and of
--     src/apps/users/models/library.py. Catalogue.Redirects: `resolve`, `resolve_with`, `redirect_map`
--     and `cluster_ids`; Reaches, Resolve and Cluster hold the proofs on chains. Catalogue.Merge:
--     `merge`, `split` and `is_public`; Granted says what a merge that returns has checked, Forest,
--     Safety, Links and Library what it keeps, Split and Back what a split gives back.
--     Catalogue.WellFormed: the invariant of the tables, a record of these. Catalogue.Decide:
--     `decide_candidate` and `_canonical_pair`.
--   Catalogue.Proposals and Catalogue.Matching: `evaluate` and `_apply_policy`, and the validation of an
--     answer in src/apps/ai/services/common.py; Gate and Evaluate hold the proofs. Catalogue.Batch:
--     `MatchApplyService.run`. Catalogue.CrossProvider: `_bind_verified_pair`.
--   Community.Model: the rows of src/apps/community/models. Community.Targets: `get_target_or_raise` of
--     src/apps/community/selectors/target_selector.py. Community.Interactions, Community.Comments and
--     Community.Notifications: the services of src/apps/community/services with these names; Counts, Kept
--     and Undo, Replies and Edits, and Read hold the proofs.
--
-- How state is modelled. A table is a list of rows, a query a function on it. What the code writes to
-- the database is passed on explicitly; a Python copy of a row is a value of its own where the code
-- keeps one (the state machines, the executor). Interleavings are modelled where the code defends
-- against them: two workers with copies of one run or step, and any sequence of calls on a job. A
-- campaign's step is modelled with nobody else writing the rows of the campaign meanwhile. The
-- services of the catalogue raise: they are chains in `Result Failure`, and where a transaction is
-- rolled back the tables of before go on. A theorem that looks a row up by its key has as a hypothesis
-- that the keys of its table are unique.
--
-- Numbers. Times are seconds, and one reading of the clock serves one operation, but for the two
-- queries at the end of `_fetch`, which have readings of their own. Money is a count of the smallest
-- unit; decimals of the matching are ten-thousandths, in an evaluation parts of its argument `one`. Keys
-- are numbers, where the database has UUIDs, and a fresh one is an argument. Loops are structural: over
-- the rows of a batch, in `crawl` over the pages that the step may still take, and in `resolve` and
-- `cluster_ids` over the hops up to MAX_REDIRECT_DEPTH, 32, each the loop's own bound, and a merge
-- raises where it would not suffice. Only the agent loop has fuel, one unit for a turn: a turn that goes
-- on has used one of the steps of the budget.
--
-- Parameters. The gateway of models, the handlers of tools, the provider's `discover`,
-- `discover_delta` and `import_item`, the AI calls for one item, settings, the exceptions of
-- `capture_artifact`, the text of an exception of a campaign's step, and the answer of the gateway to a
-- matching request are arguments.
--
-- Not modelled: `_normalize_tool_names` and the waiting between attempts of the agent loop; `watch` and
-- `_mark_agent_run_complete`; content hashes; the facts that `rebuild_entity` writes, and `cluster_map`;
-- the import services, the provider clients, the other services of the catalogue and of the community,
-- `delete_comment`, whose deletion the database cascades, texts and metadata of the community, users,
-- the API, tasks and settings, which are input and output, field-by-field writes, or left to other
-- libraries.
pub mod Base
pub mod Agent
pub mod Job
pub mod Campaign
pub mod Catalogue
pub mod Community
