-- ===== src/Explorer.antt =====
-- packages/explorer-state: the explorer's framework-neutral state.
pub mod Types
pub mod Errors
pub mod Preferences
pub mod Identity
pub mod Controller
pub mod Operations
pub mod Selection
pub mod Platforms
pub mod Origins
pub mod Dictionaries
pub mod Presentation
pub mod Transport
