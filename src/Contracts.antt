-- ===== src/Contracts.antt =====
-- packages/contracts/src: the contracts between the explorer and its profiles.
pub mod Boundary
pub mod Compatibility
pub mod Handshake
pub mod Routes
pub mod HttpFields
pub mod HttpBoundary
pub mod Dispatcher
pub mod HttpClient
pub mod Cursor
