-- ===== src/Lib.antt =====
-- pg_noty delivers changes of PostgreSQL tables to HTTP listeners. Triggers write each change into the
-- table events and a row of event_queue in the same transaction. A worker claims rows of the queue under
-- a lease, delivers their events, and settles each of them: acknowledged, to be tried again later, or
-- dead. Reconciliation keeps the triggers in step with the configuration, and the service schema's event
-- log is partitioned by time. The parts and the files that model them:
--
-- Base: shared names; native integers and int64, Go's results, strings as bytes, sorting.
-- Schema/Identifier: internal/schema/identifier.go, `WhyUnusable`, `Quoted` and `Qualified`. The quoting of
--   pgx is a parameter, the record Quoter, with its documented law.
-- Schema/Partition: internal/schema/partition.go and horizon.go, the grid of partitions on int64 nanoseconds
--   with their wrap-around, `RequiredRanges`, `CoverageShortfall`. Schema/Stamp, ObjectName: the names of
--   partitions and of generated objects, with package time's civil date and hash/fnv written out.
-- Schema/Maintain: plan.go, maintain.go, retention.go and retentiondrop.go of internal/schema. A pass is a
--   function from the catalog's tables and the queue to what it settled; what other replicas do before
--   a step, and the server's errors in it, are the weather of the step. The foreign key from the queue
--   to the log is the server's: a detach is refused while a row of the queue is in the extent.
-- Schema/Repair: repair.go and repairstatements.go. Each statement of the drain sees what others have committed
--   before it, which is an argument; the holding tables are lists, and the text of the statements is left out.
-- Source/Store: the tables event_queue, events and deliveries (internal/schema/migrations) as lists of
--   rows, and source.Event and source.Delivery.
-- Source/Transition: internal/source/ack.go, nack.go and dead.go, one function `settle` with the three
--   statements; Source/Claim: claim.go; Source/Sweep: leasereclaim.go and queueretry.go; Source/Qualified:
--   splitqualified.go; Source/StorableText: storabletext.go. Each call is a function from the tables to a result
--   and the tables after it. The record Database says what the server is during one call: its clock,
--   the rows that others hold locks on, and which step fails; a call that fails changes no table.
-- Source/Literal: literal.go and dollarquote.go; Source/Generate: generate.go, refusal.go, payload.go,
--   whenclause.go, body.go and statements.go, with the text of every statement.
-- Config/WhenLexer: internal/config/whenlex.go. The source moves an index over the clause; the model takes
--   and returns the rest of the clause from the index on.
-- Config/Ident: internal/config/ident.go. Package unicode's letters and net/url's parser are parameters.
-- Config/ConnString: libpqgrammar.go and connstring.go, the form of a connection string from ident.go, and from
--   redact.go what replaces the passwords in one. An index is the rest of the text, a span has offsets.
-- Config/Interpolation: envreference.go and envexpansion.go, with the environment's lookup as a parameter.
-- Delivery/Duration, Policy, Classify, RetryAfter: internal/delivery/backoff.go, policy.go, classify.go and
--   retryafter.go. Durations are integers, and the arithmetic saturates where the code does.
-- Delivery/Semaphore, Worker, Hold, Drain: semaphore.go, the state of worker.go, hold.go and drain.go.
-- Delivery/Dispatch: dispatch.go. `admission` and `delivery` are the lock and channel operations of tryDispatch
--   and of the end of a delivery, which Dispatch/Slots takes in any order; `try_dispatch` and `complete` run
--   them without another one between them. Dispatch/Batch has the rounds of dispatchBatch, with
--   the deliveries that end between two attempts as an argument.
-- Delivery/RunOnce: `RunOnce` of worker.go; what the source answers is an argument.
-- Delivery/Record: record.go, `settlement_of` for the choice that recordResult makes.
-- Delivery/Wakeup: the machine of wakeup.go.
-- Delivery/Signing: signing.go; the HMAC is a parameter, the record Hmac, with the size of its digests.
-- Delivery/Destination: internal/delivery/ssrf.go, with Contains and To4 of package net written out, and its
--   parsers as parameters.
-- Reconcile/Marker, Ownership: markerparse.go and ownership.go of internal/reconcile, and source/marker.go.
-- Reconcile/Plan, Classify, Diff: action.go, decision.go, verdict.go, plan.go, classify.go and diff.go.
-- Reconcile/DdlText, Apply: ddltext.go and applytx.go. The server is a parameter, a function from a
--   statement and any type of databases to a reply; its reply to a lost lock has the blocker seen.
-- Reconcile/RunLock: runlock.go. What the other sessions, the server's errors, the clock and the context do is
--   a function of the round; a key is held by a backend.
-- Reconcile/Target: targetresolve.go, with the reads of the catalog as a parameter.
-- Reconcile/Registry: registry.go, the tables listeners and listener_triggers and their reads and writes. The
--   server's type jsonb is a parameter, the record Jsonb: how it renders a text, and which values are the same.
-- Cli/EventsRetry: the loop of internal/cli/eventsretry.go.
-- Tests: the theorems at concrete inputs, and runs of the model.
--
-- Components interact as the program has it: Delivery/Record settles by Source/Transition, Delivery/RunOnce
-- dispatches what Source/Claim returns, and Cli/EventsRetry calls Source/Sweep. In
-- Delivery/Dispatch/Slots each lock or channel operation of an admission and of the end of a delivery is a
-- step, and these may come in any order; in a batch, what other goroutines do comes between two
-- attempts, and an attempt is not interrupted.
--
-- Fuel: the wait for the run lock runs on one more round than it has nanoseconds, for a round that
-- waits takes the poll interval. dispatchBatch runs on one more round than the batch has events, for a
-- round that makes progress takes an event out of a queue. The loop of events retry has its fuel as an
-- argument, and the theorem says how much is enough. Decoding a text and the scan of a clause run on
-- its length, for each step takes a byte; so does the scan of a text for references, in which a
-- default is shorter than what carries it. The scan for a keyword takes the keyword in each round. The
-- search for a dollar-quote tag runs on one more round than the body has bytes, and always ends within
-- it.
--
-- Not modelled: the HTTP client and its requests; the LISTEN connection and the select loops around
-- the machines; the migrations; the stops of a whole apply, the objects of an action, destroy, and the
-- reads of the catalog; the decoding, the validation and the diagnostics of the configuration's
-- document; the commands, servers, metrics and logs. Hashes, date parsing and random draws are
-- parameters.
pub mod Base
pub mod Schema
pub mod Source
pub mod Delivery
pub mod Reconcile
pub mod Cli
pub mod Config
pub mod Tests
