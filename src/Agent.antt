-- ===== src/Agent.antt =====
-- src/defib/agent: the host's side of the flash agent.
pub mod Packet
pub mod Receive
pub mod Client
pub mod Tests
