-- ===== src/Fixture.antt =====
-- packages/fixture-generator: the deterministic fixture, its batches and what reads them.
pub mod Samples
pub mod Records
pub mod Bundles
pub mod Stream
pub mod Batches
pub mod Seeding
pub mod Manifest
pub mod Evaluator
pub mod Verifier
