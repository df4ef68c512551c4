-- ===== src/Dap.antt =====
-- src/dap: the debug adapter protocol, from the bytes of the transport up to the stops of a session.
pub mod Session
pub mod Wire
pub mod Client
