-- ===== src/Clients.antt =====
-- scripts/lib and examples/reference_client.py: the programs that talk to the server as clients.
pub mod Request
pub mod Wire
pub mod Smoke
pub mod Reference
pub mod Concurrency
pub mod Sender
