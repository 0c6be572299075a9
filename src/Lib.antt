-- ===== src/Lib.antt =====
-- ETNPILOT runs language model agents on a repository. A run is started by hand or by a delivery that
-- waits as a job in a durable queue; what an agent wants to do passes a policy, and what the policy
-- does not settle is put to a human; the model behind an agent is chosen by a router. This library
-- models the parts that decide, and proves what they promise.
--
-- The parts, from the repository's root:
--
-- - Common: what the parts share. Lists measured by native numbers; a database table as the list of
--   its rows, with SELECT, UPDATE and a primary key; methods that may throw, as actions on a store
--   with a transaction; JSON values.
-- - Queue (src/workflow/queue.js): `WorkflowQueue`, every method over the table of jobs. Queue/Types
--   has the rows, Queue/Ops `enqueue`, `claim` and the recovery of expired leases, Queue/Owner the
--   methods of a lease's holder and of operators, Queue/Listing the listings, Queue/Calls the calls
--   as data. Queue/Steps is the specification, a step relation that says what may happen to a job;
--   Queue/Refinement shows that each call makes such steps, Queue/Invariant what the steps keep,
--   Queue/Lifecycle what follows for sequences of calls. Queue/Effects says column by column what a
--   method does to the row of its job; Queue/Written shows that the UPDATEs of the methods do so.
-- - Worker (src/workflow/queue-worker.js): `#run` of WorkflowQueueWorker, over the methods of Queue.
--   The beats of its timer, the checkpoints of the execution and the calls of others are events.
-- - Policy (src/policy/engine.js, src/core/approval-policy.js): Policy/Rules and Policy/Engine are
--   `PolicyEngine`, Policy/Approval is `ApprovalPolicy`. The engine's answer is an argument of the
--   approval policy's, as in `evaluate`. Policy/Choice specifies the decision without the order of the
--   rules, Policy/Order and Policy/Safety say what is allowed and what never is. Policy/Normalize is
--   `normalizeSection`, which makes the rules from the configuration.
-- - Inbox (src/core/approval-inbox.js): `ApprovalInbox` in Inbox/Ops, and the handler that waits for
--   an answer in Inbox/Handler: between its polls other callers act, as a list of calls.
-- - Router (src/providers/router.js): `ProviderRouter`. Router/Route is the route of an agent and the
--   constructor, Router/Invoke the loop that tries the providers of a route.
-- - Retry (src/providers/retry.js): `withRetry`, the attempts at one provider, and its abort signal.
-- - Ladder (src/workflow/ladder.js): `runLadder`, the tiers that try a task one after another.
-- - Quorum (src/workflow/quorum.js): `evaluateQuorum`.
-- - Workflow (src/workflow/engine.js): `WorkflowEngine`. Workflow/Graph is `validateSteps` with
--   `assertAcyclic`, Workflow/Engine the loop of `run`, Workflow/Attempts `executeWithRetry`. The loop is
--   cut where it awaits: a list of events says when it goes on, when the promise of a step settles and
--   when a step leaves the map of running steps. Workflow/Invariant has what holds between events.
-- - Diff (src/providers/text-diff.js): `unifiedDiff`, what a person reads before a write is approved.
--   Diff/Lines is `diffLines` with its table, Diff/Unified the rest.
-- - Resume (src/runtime/resume-plan.js): `planResume`, over the lines of a receipt, which the verifier of
--   Receipts checks first. Resume/Steps is `planSteps`, Resume/Plan the refusals.
-- - Receipts (src/core/receipt-store.js, src/core/receipt-signing.js, src/runtime/jsonl.js): the record
--   of a run as a chain of hashes. Receipts/Lines reads a file line by line, Receipts/Store is
--   `JsonlReceiptStore`, Receipts/Chain the verifier, Receipts/Signing `verifyReceiptSignature`,
--   Receipts/Canonical `canonicalJson`. A line of the file is the JSON value that it denotes, or nothing
--   if it is no JSON, with its number of bytes, since a line over 8 MiB is not read
--   (Receipts/Lengths); a date is the time
--   that it denotes.
--
-- Random ids, times and the outcomes of calls to providers are arguments: a method that reads the
-- clock more than once takes each reading. Times are milliseconds as natural numbers. An argument that
-- the program tests by `Number.isInteger` is a JsNumber. The loops recurse on the list of rows, votes,
-- providers, lines or events that they walk over, or on the number of attempts that are left. Only the queue of `assertAcyclic` runs on fuel, one turn for each step, which is enough
-- because each turn visits another step (Workflow/Orders).
--
-- What the code takes from its platform is a parameter: regular expressions, the host of a URL and
-- the place of a path are the record Platform of Policy/Rules; the registry, the policy and the
-- providers are the record World of Router/Invoke, and agents, commands and reviewers that of
-- Ladder/Climb. SHA-256, the texts of JSON values and their length in bytes are the record Hashing of
-- Receipts/Store, the signing of a hash and its check the records Signer and Verifier of Receipts/Signing. What is found of
-- a worktree and of the configuration is the record Found of Resume/Plan. SQLite is the list of rows: one statement at a time, a transaction that rolls back
-- when the operation throws, and rows of equal order in the order of insertion.
--
-- Not modelled: the texts of messages and reasons, telemetry and usage, the set-up of databases, and
-- the other parts of the program: workflow files, the
-- providers themselves, plugins, the interfaces and the command line.
pub mod Common
pub mod Diff
pub mod Queue
pub mod Quorum
pub mod Receipts
pub mod Resume
pub mod Retry
pub mod Router
pub mod Worker
pub mod Workflow
pub mod Inbox
pub mod Ladder
pub mod Policy
