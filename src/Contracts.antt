-- ===== src/Contracts.antt =====
-- engine/contracts: what the records of the repository share.
pub mod GateKey
pub mod Requests
pub mod Jsonl
pub mod Journal
pub mod Lane
mod Tests
