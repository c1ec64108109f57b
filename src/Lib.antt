-- ===== src/Lib.antt =====
-- The EACL demo: an explorer of an authorization service that runs on many storage profiles, with the
-- deterministic fixture they are seeded with. This library models its JavaScript packages.
--
--   packages/fixture-generator: `generator.mjs` yields resource bundles from a 64-bit sampler
--   (Fixture: Samples, Records, Bundles) and makes the manifest of a fixture (Manifest),
--   `canonical-json.mjs` gives records one spelling (Json), and `batching.mjs` cuts the stream into
--   durable batches and applies them, from a checkpoint if asked (Fixture: Batches, Seeding).
--   Fixture.Stream describes the stream independently of the generator, and `verifier.mjs` compares
--   the lines of a fixture with it (Fixture.Verifier).
--   `exemplar-evaluator.mjs` evaluates the permissions over a fixture's relationships
--   (Fixture.Evaluator: Keys for its texts, Derived and Decides for derivations, Lookups).
--   packages/explorer-state: `explorer-controller.mjs` owns the transport of the selected profile and
--   keeps late answers out of what is shown (Explorer.Controller: its state; Publish: shared helpers;
--   Switch: `switchProfile`, `cancelStartup`, `close` and the setters; Panels: `runPanel` and its kin;
--   Steps: the state machine), with the checks it applies (Explorer: Identity, Preferences, Errors).
--   `explorer-operations.mjs` keeps the pager and the bounded counts of an epoch (Explorer.Operations),
--   `selection.mjs` chooses a backend and a storage (Selection), `platforms.mjs` the platforms that a
--   profile runs on (Platforms) and their origins (Origins), `descriptor-presentation.mjs` shows the
--   terms of a descriptor (Dictionaries, Presentation), `http-transport.mjs` sends requests to a profile's service
--   (Transport: a request; Start: the handshake; Signal: the deadline; Origin: the accepted origins).
--   packages/qualification: `runner.mjs` runs the qualification cases against a profile
--   (Qualification.Runner), `reports.mjs` checks what it reports (Reports).
--   packages/contracts: `execution-boundary.mjs` admits requests and cleans up after them
--   (Contracts.Boundary), `compatibility.mjs` compares contract revisions (Compatibility),
--   `descriptor-handshake.mjs` checks a service against the registry (Handshake), `routes.mjs` says
--   which path and method reach an operation (Routes), `http-boundary.mjs` which requests are accepted
--   (HttpFields, HttpBoundary), and `read-only-dispatcher.mjs` hands them to their handlers (Dispatcher);
--   `http-client.mjs` reads a response within a limit (HttpClient), `cursor-codec.mjs`
--   signs cursors and binds them to a scope (Cursor).
--   packages/data-lifecycle: `lifecycle.mjs` moves a data set from staging to retirement and plans its
--   promotion (Lifecycle: the operations; Order, History: what a sequence of transitions keeps).
--
-- Conventions. Code that throws is a `Result` (Base.Results). An async function is cut at its awaits:
-- each part is a function of the state, and the tasks that are awaited stand in the state, so a
-- sequence of steps may end them in any order. Outcomes of awaited calls, the clock and digests are
-- arguments. Numbers are natural numbers; what JavaScript bounds by `Number.isSafeInteger` is bounded
-- by 2 ^ 53 - 1, and BigInt words keep their remainder by 2 ^ 64. Loops are structural or on fuel: the
-- loop over accounts takes one round per resource of the cut point, which is enough since each round
-- emits a resource; the permission evaluator has a round for each state that can come up and one more,
-- which is enough since a path never repeats a state. Texts are compared by characters, cut by UTF-16
-- units, and measured in UTF-8 bytes where the source encodes them.
--
-- Not modelled: input and output (files, network, timers themselves, DOM), SHA-256 (a parameter), the
-- generated validators, the TypeScript applications and the Clojure services.
pub mod Base
pub mod Json
pub mod Fixture
pub mod Explorer
pub mod Lifecycle
pub mod Contracts
pub mod Qualification
mod Examples
