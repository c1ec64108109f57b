-- ===== src/Qualification.antt =====
-- packages/qualification/src: how a profile is qualified, and what the reports check.
pub mod Runner
pub mod Reports
pub mod Passes
