-- ===== src/Testkit.antt =====
-- `crates/carriers-testkit`: the harness that runs the daemon against a mock DNS and scores what it
-- delivers.
pub mod Sender
pub mod Verdicts
pub mod Sink
pub mod Harness
pub mod Scenario
pub mod Main
mod Tests
