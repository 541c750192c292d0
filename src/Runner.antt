-- ===== src/Runner.antt =====
-- The conformance runner, conformance/runner.
pub mod Peers
pub mod Registry
pub mod Executor
pub mod Daemon
pub mod Loading
