-- ===== src/Worker.antt =====
-- worker/la_worker.py: the replies, `_infer`, and the loop of one connection.
pub mod Reply
pub mod Infer
pub mod Serve
pub mod Lock
pub mod App
pub mod Capabilities
