-- ===== src/Lib.antt =====
-- ProbeHive: a verification library for the Go server under internal/.
--
-- ProbeHive watches Monitors. A scheduler derives the slots of each Monitor from its identifier and
-- its interval, claims a slot for one worker by a lease on a Run, executes the check and completes
-- the Run together with an outbox entry. A dispatcher claims outbox entries and hands each to the
-- handler of its topic, again and again until it succeeds or must not be retried. The health
-- handler evaluates each recorded Run into the health snapshot of its Monitor. Maintenance windows
-- say when a Monitor is expected to fail. Each change of health is an event in the outbox again,
-- and the incident handler projects these events, in the order of their versions, into the
-- Incidents of the Monitor.
--
-- Base: what the program takes from Go. Base/Int has int64 values as integers with `wrap64` written
-- where a sum can leave the range, and Go's truncated `quot` and `rem`. Base/Time has an instant as
-- nanoseconds since the zero Time and a location, `Sub` with its saturation, and a Duration as an
-- integer of nanoseconds; `Add` does not wrap, as the range of Time is some 292 billion years.
-- Base/Texts has strings and their UTF-8 bytes, Base/Hash the 64-bit FNV-1a hash, Base/Decimal the
-- text of an integer, Base/Results the results of a call that can fail. Errors are values, one for
-- each message of the source.
--
-- Health: internal/health/health.go. Health/Model has the types, Health/Classify `Classify`,
-- `CountsFor` and `StaleAfter`, Health/Snapshot the validation, `Initial` and `setState`,
-- Health/Scheduled `evaluateScheduled` and `beginCandidate`, Health/Confirmation
-- `evaluateConfirmation`, and Health/Evaluate `Evaluate` and `MarkStale`. Health/Invariant states
-- what coherent health is; Health/Transitions, Health/Safety, Health/Outcomes and Health/History
-- hold the proofs, the last over any sequence of Runs and staleness sweeps.
--
-- Health/Service is `HandleRunRecorded` and `SweepStale` of internal/health/service.go, and
-- Health/Sweeping is about the latter.
--
-- Run: internal/run. Run/Model, Run/Lifecycle and Run/Lease are run.go; a method with a pointer
-- receiver returns the new record. Run/Schedule is schedule.go, Run/Events is events.go and the
-- outbox entries of observation.go, Run/Observation the rest of observation.go. Run/Scheduler and
-- Run/Backfill are `plan`, `newRun`, `runSlot` and `recordMissed` of scheduler.go: what the UUID
-- generator, the store, the executor and the context answer are fields of `Answers`, and the calls
-- to the store are the result, in order. Run/Manual and Run/Confirming are `Trigger` of manual.go
-- and `Execute` of confirmation.go in the same form, and Run/Settled, Run/Requested and
-- Run/Confirmed are about them. Run/Validity, Run/Persistence and Run/Leases are about one Run,
-- Run/FloorDiv, Run/Slots and Run/Missed about the schedule, Run/Protocol, Run/Walked and
-- Run/Suppression about the scheduler.
--
-- Outbox: internal/outbox/outbox.go. Outbox/Model and Outbox/Dispatch are the entries, `handle` and
-- the counts of `Tick`; Outbox/Retry is `RetryDelay`. Outbox/Backoff and Outbox/Handling hold the
-- proofs.
--
-- Maintenance: internal/maintenance. Maintenance/Window is maintenance.go, Maintenance/Service is
-- `Create` and `Cancel` of service.go; Maintenance/Laws, Maintenance/Restored and
-- Maintenance/Requests hold the proofs.
--
-- Store: internal/postgres/run.go. A table is a list of rows, and Store/Tables has the statements
-- on it; Store/Rows has the rows, the keys that the migrations declare and the conditions of the
-- statements; Store/Runs has `ClaimSlot`, `RenewLease`, `ReleaseSlot`, `Complete`, `RecordSkipped`
-- and `FindObservation`. A transaction is one step, and whether the database carries it out is an
-- argument. Store/Histories is any sequence of calls by any number of workers; Store/Cases has the
-- branches of each call, Store/Distinct what a unique index gives, and Store/Slots, Store/Finality,
-- Store/Exclusion and Store/Atomic hold the proofs.
--
-- Store/Queue is internal/postgres/outbox.go; below it, Histories is any sequence of calls,
-- Accounted, Conservation and Claims are about the entries under such a sequence, and Dispatching
-- composes the dispatcher's `handle` with the store.
--
-- Incident: internal/incident and internal/postgres/incident.go. Incident/Model and
-- Incident/Service are incident.go, Incident/Rows and Incident/Projection the tables and
-- `ProcessHealthTransition`, Incident/Acknowledgement is `AcknowledgeIncident` and `GetIncident`.
-- Incident/Histories is any sequence of deliveries, acknowledgements and new transitions,
-- Incident/Cases and Incident/Effects are the branches. Whether the Monitor is archived is an
-- argument of a delivery, as it is read in the transaction. Incident/Replay says what the Incidents
-- of a Monitor are to be, in terms of its transitions and this argument, and Incident/Followed
-- which deliveries of a history projected them; Incident/Obstructed says why a projection may fail;
-- Incident/Delivered, Incident/Views, Incident/Cursors, Incident/Unresolved, Incident/Agreement,
-- Incident/Ordering and Incident/Redelivery hold the proofs.
--
-- Handover: the contract between the packages run and health, whose event goes through JSON.
--
-- Bounds: every loop recurses on a number that the code computes before the loop. The loop of
-- `MissedSlots` runs on the room that is left below the limit, where the code stops too; the loop
-- of `RetryDelay` on the rounds that its counter allows. A number that the database bounds, such as
-- a version, is an unbounded integer where the code only compares it, and wraps where it adds.
--
-- Not modelled: logging, and the text of error messages. JSON and UUIDs are libraries and stand as
-- arguments, as do the SQL stores but those of Runs, the outbox and Incidents. Of these, statements
-- that only list rows are left out, and so are the microseconds that a stored instant is cut to and
-- the commit that is carried out although its answer is lost. `DropExpiredPartitions`, which
-- deletes the Runs of expired months, and the cleanup of the outbox are not calls of the histories.
-- Timers, goroutines and configuration checks (`Serve`, `New`), the other services and the HTTP API
-- are left out.
pub mod Base
pub mod Health
pub mod Run
pub mod Outbox
pub mod Maintenance
pub mod Handover
pub mod Store
pub mod Incident
