-- ===== src/Witnesses.antt =====
-- Tests, and each theorem at a concrete input.
mod Data
mod EventTests
mod ExampleTests
mod StatusTests
mod ActionTests
mod HealthTests
mod RestartTests
mod SqliteTests
mod MaintenanceTests
mod ServiceTests
mod FileTests
mod InterleavingTests
