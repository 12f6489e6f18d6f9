-- ===== src/Lib.antt =====
-- The adapter between NetBox and Cisco NSO: the claims of devices and the jobs that are run under
-- them, management-address failover, receipt admission, the reading of device state, the plans by
-- which static routes are applied and removed, AS numbers, and community members.
--
-- The adapter polls every NSO device. A device has a primary and an out-of-band (OOB) management
-- address; `run_failover_tick` (nso_adapter/core/failover.py) probes the addresses that are due
-- through NSO's `connect` action (nso_adapter/nso/actions.py), moves NSO to the OOB address after
-- enough failures, and back after enough successes. Probing the address that is not active means
-- to point NSO at it for a moment and back. `upsert_failover_ips` stores what NetBox reports.
--
-- Failover/Row.antt         the DeviceFailover row (nso_adapter/store/models.py) and its vocabulary
-- Failover/Client.antt      NSO, `ipaddress` and `random` as the parameter `Env`; the Action monad:
--                           row, outside world, flip budget, and exceptions with cancellation
-- Failover/Hysteresis.antt  step_failover, step_failback, FlipBudget.take
-- Failover/Address.antt     _set_address, _revert_address, _reconcile_active_address, stored addresses
-- Failover/Switch.antt      probe_reachable, the recording of probes, _switch_to_oob, _commit_failback
-- Failover/Probes.antt      _probe_primary, _probe_oob and the two flip-probes
-- Failover/Tick.antt        run_failover_tick
-- Failover/Ingest.antt      upsert_failover_ips
--
-- A push of intent from NetBox carries a sequence number; `admit_push` (nso_adapter/core/receipt.py)
-- decides from the one receipt that a device keeps for each stream whether to do its work, to
-- replay the stored response, or to refuse it.
--
-- Receipt.antt              PushIdentity, IntentDelivery, IntentPushReceipt, admit_push, the streams
--                           (nso_adapter/core/intent_protocol.py), what record_response writes
-- Receipt/Event.antt        histories of deliveries and responses
--
-- A push of static routes may name the NetBox routes that were deleted; `classify_deletions`
-- (nso_adapter/core/deleted_routes.py) says what became of each against the rows the push removes.
--
-- DeletedRoutes.antt        classify_deletions, with Triple and triple_of of
--                           nso_adapter/core/static_route_plan.py
--
-- Clearing a field of a route must reach the device once the push may write to it; the carrier
-- `pending_clear` (nso_adapter/core/static_route_plan.py) remembers the fields in two halves.
--
-- PendingClear.antt         update_pending_clear, pending_clear_fields, authorized_clear_fields
--
-- RoutePlan.antt            the rows of intent and of tombstones (nso_adapter/store/models.py), what
--                           counts as set or cleared, and static_route_entry, the renderer of
--                           nso_adapter/nso/apply.py
-- ApplyPlan.antt            classify_apply_plan, freeze_static_route_proof, prune_apply_plan
-- ApplyPlan/Hydrate.antt    hydrate_static_route_apply_plan
-- RemovalPlan.antt          classify_removal_plan, its recording, certification and hydration
--
-- An apply plan says which rows a document renders and which keys it may drop; a removal plan says
-- which keys it takes away and which fields it clears. Both stand on the accepted rows and on the
-- tombstones, the deletions that the device still owes; both are recorded with their job and
-- hydrated when it runs. They take authorized_clear_fields from the carrier, and Triple and the
-- order of keys from DeletedRoutes.
--
-- A tombstone whose job succeeded was never proven; the drain (nso_adapter/core/static_route_reclaim.py)
-- goes round the devices, a budget of them at a tick, consumes the tombstones that its reads prove
-- and issues the others again. The read of the service is certified in
-- nso_adapter/core/static_route_reader.py, over service_instance_state of nso_adapter/nso/client.py.
--
-- Reclaim.antt              reclaim_succeeded_tombstones, reclaim_one_device, the proofs of a
--                           deletion, delete_tombstones (nso_adapter/store/tombstone_store.py)
-- Reclaim/Section.antt      service_instance_state, certified_static_route_section
--
-- A device-state section names in a marker the collections that it covers; the decoder turns an
-- omitted collection of the marker into an empty one, drops the others, and a consumer admits a read
-- only if the collections that it requires are there (nso_adapter/nso/collection_coverage.py). In
-- between, a section is classified by its status (nso_adapter/nso/read_outcome.py).
--
-- Json.antt                 decoded JSON documents
-- Coverage.antt             _load_collections, _covered, _refuse_marker, _decode_parent,
--                           decode_section
-- ReadOutcome.antt          ReadFailure, Present and Unavailable with their guards,
--                           classify_envelope_section
-- Admission.antt            collection_paths, validate_paths, decode_sections, admit_coverage
--
-- Work on a device is done under its claim (nso_adapter/core/claim.py): a row that one holder inserts,
-- with a new token, and that every transaction of the holder locks first. A worker starts the head of
-- the device's queue under it and heartbeats it (nso_adapter/core/worker.py); a claim whose heartbeat
-- is too old is revoked and its job disposed of. Every terminal status of a job goes through
-- `terminalize`, which settles the job's generations (nso_adapter/core/generation.py) and takes the
-- device's next settlement sequence (nso_adapter/store/device_settle.py) in the same transaction. A
-- job with generations starts only if no earlier one of the device is unsettled.
--
-- Work.antt                 the rows of jobs and the tables; Work/Rows.antt those of generations
--                           (nso_adapter/store/models.py)
-- Work/Jobs.antt            terminalize, allocate_settle_seq
-- Work/Jobs/Recovery.antt   terminalize_running
-- Work/Jobs/Writers.antt    the bulk writers, the starts of jobs, and create_dedicated_job
--                           (nso_adapter/core/jobs.py)
-- Work/Jobs/Event.antt      histories of writes and recoveries
-- Work/Generations.antt     settle_job_generations, mark_job_generations_running,
--                           requeue_job_generations
-- Work/Barrier.antt         executable_head, job_admissible, and the walk over the queued jobs in
--                           _start_head_under_claim
-- Claim.antt                acquire_claim, lock_claim, release_claim, the heartbeat, the start of a
--                           head, mark_failed_and_release, dispose_cancelled, revoke_stale_claims
-- Claim/Owner.antt          what a claim promises: the ownership of devices, as acts
-- Claim/Acts.antt           the transactions and the acts that each comes to
-- Claim/Waiting.antt        acquire_claim_waiting, acquire_claim_or_refuse
--
-- Asn.antt                  parse_asn and the source references that name an AS
--                           (nso_adapter/domain/asn.py)
-- Community.antt            both community dialects (nso_adapter/core/community_dialect.py)
-- Text.antt                 Python texts by their code points
-- Results.antt              calls that return or raise
--
-- The proofs of the failover are below its files: Keeps, Harmless, Reads and Cost carry an
-- invariant through the monad, Lane, Budget, Restore and Hysteresis/Streaks use them; Ingest/ has
-- those of the ingestion. Those of the receipts are in Receipt/Once and Receipt/Replay, those of the
-- deletions in DeletedRoutes/Sets, Triples, Partition, Uncorrelated and Classes, and those of the
-- carrier in PendingClear/Halves and Runs. Coverage/ has the proofs of the decoder, Admission/ those
-- of the admission; RoutePlan/Neutral compares the renderer with the predicates of a row;
-- Authority and RoundTrip of both plans, and ApplyPlan/Prune, have those of the plans; Reclaim/Drain,
-- Gone and Proven those of the drain. Claim/Refines has those of the claims, Work/Jobs/Passes,
-- Keeps, Final and Settle those of the jobs, Work/Generations/Revisions those of the settlement,
-- Work/Barrier/Head and Agrees those of the barrier. The files below Asn/, Community/ and Text/ are
-- named for what they prove. Concrete runs stand in the Tests files.
--
-- How the model reads the code. A statement that awaits the client is an action, and a `try` with
-- `except Exception` lets `cancelled` through, as asyncio's CancelledError passes it. A column of a
-- row that was not flushed reads as its default. Times are in microseconds, and the fraction of
-- jitter in millionths. Log lines, the measured time of a probe and the device's name are left
-- out, and `_utcnow` is an argument. The flip budget is seen by one device's tick: other devices'
-- takes between its awaits are not modelled. Every loop is over a list or a tree, but for the wait for
-- a claim: it has fuel for one attempt more than its timeout has microseconds, which is enough as
-- every sleep takes one at least.
--
-- A receipt table is a function of device and stream. `admit_push` runs under the device's lock, so
-- it is one step; its answer is a value, conflicts included. How record_response puts a response
-- together is not modelled: the response it stores is given.
--
-- A Python set is a list read by membership, a dict a list of keys and values; `sorted` is an
-- insertion sort. The row ids of one device's table and its route ids are unique in the database;
-- a theorem that needs it says so.
--
-- A raised exception is a value of Results.antt, by its class. What `load_manifest` reads of the
-- manifest, the marker's name and the families, is an argument, and so are the labels of the section
-- registry. A recorded plan has its members and their types; what is read of it is otherwise what
-- the code tests. A member of a community list is ASCII text of at most 4300 characters, so that
-- `int` takes every number in it.
--
-- Of the drain, what its reads of the device gave, what the issuing of a job does, and what becomes of
-- each device at a tick are arguments; the locks are left out, as a device is worked on under its
-- claim. The ids that a query selects, distinct and in order, are an insertion into a sorted list.
--
-- A transaction of claims or jobs takes the row lock of the claim or of the job first and holds it to
-- its commit, so it is one step; where the code says that another may come in between two statements,
-- as in the recovery of a running job, `between` is an argument. A lost acknowledgement of a commit
-- leaves it open whether the transaction was applied. A token is a number, and that it is a new one
-- is a hypothesis where it is needed. What execution attempts prove of a run that sent nothing, and
-- how an attempt is disposed of, are the arguments `evidence` and `dispose`; the monotonic clock and
-- sleep are arguments of the wait, and its two readings of the clock before a sleep are one. The ages
-- of claims are in milliseconds. Columns of times, contexts and evidence are left out of the rows, and
-- so is the order in which revisions are stamped; revoked claims come in the order of the devices.
--
-- Not modelled: the transport of the client and the database session; extend_apply_plan and the
-- operations that are built from a plan; asn_row_identity and validate_asn_rows; the sweep of
-- tombstones; of claims, the resolution of an acquisition in doubt; of jobs, the admission of
-- coalescible ones, the release of an inspected generation and the execution attempts; of generations,
-- their creation, their attachment to jobs, and the retry of a blocked one; and the rest of the
-- adapter.
pub mod Prelude
pub mod Results
pub mod Json
pub mod Text
pub mod RoutePlan
pub mod ApplyPlan
pub mod RemovalPlan
pub mod Asn
pub mod Community
pub mod Coverage
pub mod ReadOutcome
pub mod Admission
pub mod Reclaim
pub mod Work
pub mod Claim
pub mod Failover
pub mod Receipt
pub mod DeletedRoutes
pub mod PendingClear
