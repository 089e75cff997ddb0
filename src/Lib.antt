-- ===== src/Lib.antt =====
-- The Solace workload balancer moves a scaling group from one set of message brokers to another. A
-- controller drives the transition through PREPARE, PAUSE, DRAIN, COMMIT and ACTIVATE and publishes
-- one membership snapshot in each phase; publishers and subscribers keep a reconciler, which takes
-- a baseline and the published updates and decides what membership is in force. Publishers choose
-- a broker of the membership for each business key by rendezvous hashing with hashes that a customer
-- library supplies; a policy engine recommends from telemetry when a group grows or shrinks.
--
-- Files:
-- - Prelude: Boolean tests, the Eq class, results and checks in sequence, association lists, list
--   lemmas, 64-bit signed integers, sorting. Text: byte strings with their order, UTF-8 as Go reads
--   it, and the parser of URLs as a parameter.
-- - Control/Snapshot, Control/Validate: control/snapshot.go, the data of a snapshot,
--   `MembershipSnapshot.Validate` and its helpers, `BrokerEndpoint`.
-- - Control/Compare, Control/Reconciler: control/snapshot.go `snapshotsEqual` and
--   control/reconciler.go, whole. Each call takes a reconciler and returns the next one beside the
--   result; the mutex of the code makes a call one step.
-- - Control/Succession: the moves from one snapshot to the next as a relation, beside the code.
--   Control/Valid, Order, Advance, Bootstrap, Progress, Agreement: proofs on these.
-- - Controller/Phases, Spec, Publication: controller/types.go `TransitionSpec.Validate` and the
--   requirements it normalises, controller/controller.go `controlSnapshot`.
-- - Controller/Start: controller/types.go `TransitionSpecFromSnapshot`.
-- - Controller/State, Commands, Sources, Drain, Update, Operations, World, Reconcile:
--   controller/controller.go, the durable state, `Begin`, `Acknowledge`, `RequestRollback`,
--   `updateGroup`, `SaveMembership`, `drainComplete` and `Reconcile` with all its phases.
-- - Controller/Handover, Steps, Acceptance: proofs on what the controller publishes and what the
--   clients make of it.
-- - Controller/Protocol, Soundness: the protocol of a transition as a step relation on the phase and
--   the flags of a group, and what its steps keep. Controller/Moves, Updates, Refinement, Rounds, Finish:
--   `Reconcile` and the other operations against that relation. Controller/Safety, Guarantees: runs
--   of calls of the controller.
-- - Customer/Keys, Library: customer/customer.go, the canonical encoding of routing keys, the hashes
--   on it, the text of a business hash, the adapters and the default library. Customer/Encoding,
--   Hex: proofs on these.
-- - Routing/Rendezvous: routing/membership.go `RendezvousBroker`. Routing/Choice: proofs on it.
-- - Policy/Types, Checks: policy/types.go. Policy/Assess, Aggregate: policy/aggregate.go. Policy/Advice,
--   Engine: policy/engine.go; `Evaluate` takes an engine and returns the next one beside the result.
-- - Policy/Recommend, Windows, Budget, Cycle, Decisions, Telemetry: proofs on these.
-- - Outbox/Records, Lanes, Store, Batches: outbox/outbox.go, the records, the lane of each ordering key,
--   `acceptMany`, `updateMany` with the operations on it, `CompleteBatch` and `Ack`. The bbolt buckets
--   are maps; whether a transaction commits and the length of the JSON text of a record come from
--   outside. Outbox/Entries, Completions, Accounts, Acceptance, Changes, Deletions, Removals, Runs,
--   Selection: proofs.
-- - Tests: concrete inputs.
--
-- Words and time: revisions and epochs are natural numbers, with the wrap-around of uint64 written
-- out where the code adds to them. A `time.Time` is a natural number with 0 for the zero time. A
-- string is its list of bytes. A map is an association list. No function runs on fuel: each loop is
-- structural recursion on the list that it reads. In the policy an `int` and a `time.Duration` are
-- signed 64-bit numbers with the wrap-around of their sums written out, and the grace of a drain is
-- signed; the time between two instants does not saturate.
--
-- From outside: `url.Parse` is a function argument, about which nothing is assumed. The store, the
-- brokers, the publisher and the clock are the answers in `Env` (Controller/World), which may be
-- any. `sha256.Sum256` and the score of a broker are function arguments, and a `float64` is a value
-- of any type with the operations of `Floats`; nothing is assumed of them. Acknowledgements that arrive while the controller publishes are a list in `Env`.
--
-- Not modelled: the JSON decoder of a snapshot and the JSON store (encoding/json and files),
-- `Observe`, `Open` with the checks of a loaded state, `ReconcileAll`,
-- a nil policy engine, `Open`, `load`, `Close` and `Stats` of the outbox, and the packages shim, broker0, cloud, semp, runtime and config.
mod Prelude
pub mod Text
pub mod Control
pub mod Controller
pub mod Customer
pub mod Routing
pub mod Outbox
pub mod Policy
mod Tests
