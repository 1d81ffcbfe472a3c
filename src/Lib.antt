-- ===== src/Lib.antt =====
-- The control kernel of Hyperfinite: a deterministic state machine that decides, for a snapshot,
-- an event and a context of authority documents, whether a lifecycle transition is applied, is a
-- duplicate (noop) or is refused, and that links every applied one into a chain of receipts.
--
-- Parts and files (paths of the source from the repository's root):
-- - Types/: the documents of src/types.ts and the compiled policy of src/policy.ts, a record or a
--   data type for each, with the fields and constructors of the source in snake_case. A field of a
--   literal type is left out.
-- - Lifecycle: the tables of src/lifecycle.ts (STATE_INVARIANTS, TERMINAL_STATES, safety
--   destinations, classifyRouteAuthority). Lifecycle/Graph: validateLifecycleGraph, a function per
--   loop. Lifecycle/Selection: selectRoute. Lifecycle/Semantics: validateSnapshotLifecycleSemantics.
-- - Host: what the kernel calls and does not implement, as the record Host: digest (SHA-256 over
--   canonical JSON), schema_errors (the Ajv validators behind validateDocument), parse_date
--   (Date.parse). With them the digests of src/binding.ts and src/events.ts.
-- - DateTime: isCanonicalUtcDateTime of src/validation.ts.
-- - Authorization: src/authorization.ts.
-- - Outcome: the early returns of the kernel as a monad; a list of guards is a row of
--   `if (test) return refusal(...)`.
-- - Json: JSON values, with strings as their UTF-16 code units. Json/Order: the order of strings by
--   code units and stable sorting by it. Json/Canonical: normalize, canonicalJson and digest of
--   src/canonical.ts, with JSON.stringify and the language's order of an object's own properties.
--   Json/Strict: the scanner of src/strict-json.ts; a position is the text that is left.
-- - Registry: validateRegistrySemantics and resolveCapability of src/registry.ts, with Ajv's verdict
--   on a schema and `new URL` as the record RegistryLibrary. Registry/Schema: the closed schema
--   dialect (validateClosedSchemaDialect, inspectSchemaNode).
-- - Policy: the interface of compilePolicy of src/policy.ts, a record PolicyCompiler that the
--   kernel takes as an argument. Policy/Compile: compilePolicy itself, which fills it.
-- - Kernel: src/kernel.ts. createInitialSnapshot and the counters in the parent; Boundary (schemas,
--   replay, envelope), Resolution (contract, current and destination authority, route), Lease,
--   Requirements, Rebind, Guards (capabilities, attempts), Accounting (usage, budgets) and Commit
--   (effects, receipt, next snapshot) are the stages of evaluateTransition, and Transition joins
--   them in the source's order as evaluate_transition.
-- - Migrations: src/migrations.ts, registration and planning in the parent and runValidator and migrate
--   in Execution; Paths, Plans, Ends and Validated are the laws of a sound registry, of planned paths, of
--   the loop's end and of completed migrations. What a validator or a migration does is a function of the
--   document and of the time of the call, so it may differ between two calls.
-- - Receipts: verifyReceiptChain of src/receipts.ts.
-- - Runs: sequences of applied transitions, a step relation over evaluate_transition, and what is
--   reached by them from createInitialSnapshot.
-- - Tests: a small lifecycle that is evaluated through two transitions, and instances of the
--   theorems on it.
-- - Common: shared names, Boolean tests from decided equality, and list lemmas.
--
-- How state and operations correspond: a KernelSnapshot is the kernel's state; evaluate_transition
-- returns `applied t`, `noop digest snapshot` or `refused refusal snapshot`, as KernelResult does. A
-- dictionary (routeAttempts, processedEvents) is an association list with own_value and with_entry.
-- Numbers are natural, as the schemas admit them, and sums are checked against
-- Number.MAX_SAFE_INTEGER as safeAdd does. Every loop is structural recursion but two,
-- which have fuel. The scanner's is twice the length of the source and one, since each call of it
-- comes with a shorter text or is the one call of a round for its value; the planner's is the number
-- of registered steps and two, since it visits no version twice. A validation error is its kind and
-- its index; the human-readable messages are left out.
--
-- Not modelled: the scan for values that are no JSON, since typed values have none; SHA-256, which is a
-- parameter, and JSON.parse, which is one but for the decoding of a key's characters (decodedString of
-- src/strict-json.ts), which is written out; the schedulers, stores, adapters and tools around the
-- kernel.
pub mod Common
pub mod Json
pub mod Types
pub mod Lifecycle
pub mod Host
pub mod DateTime
pub mod Authorization
pub mod Outcome
pub mod Registry
pub mod Policy
pub mod Kernel
pub mod Receipts
pub mod Runs
pub mod Migrations
pub mod Tests
