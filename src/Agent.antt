-- ===== src/Agent.antt =====
-- apps/agent: the session and operation state of the Session Host.
pub mod Model
pub mod Completion
pub mod Sessions
pub mod Ledger
pub mod Recovery
pub mod Invariant
pub mod Calls
pub mod Admission
pub mod Interrupt
pub mod Lifecycle
pub mod Owners
pub mod Shell
pub mod Utf8
