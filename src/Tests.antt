-- ===== src/Tests.antt =====
-- Concrete inputs for the theorems, and each theorem at one of them.
mod Samples
mod Merkle
mod Database
mod GameLoop
mod Publishers
mod Protocols
mod Handlers
mod League
mod Crons
mod Start
