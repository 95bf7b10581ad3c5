-- ===== src/Runtime.antt =====
-- src/cryptobot/runtime: the ports, the orchestrator, the service and its paper account.
pub mod Ports
pub mod Orchestrator
pub mod Rules
pub mod Once
pub mod Halted
pub mod Unmarked
pub mod Providers
pub mod Service
pub mod Paper
pub mod Live
pub mod Metrics
