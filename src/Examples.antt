-- ===== src/Examples.antt =====
-- The properties at concrete inputs, and tests of the definitions.
mod Fixtures
mod Controllers
mod Operations
mod Contracts
mod Qualification
mod Http
mod Presentations
mod Transports
mod Evaluations
mod Cursors
