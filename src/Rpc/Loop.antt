-- ===== src/Rpc/Loop.antt =====
-- `run`: the reader thread that reads the messages and the worker thread that handles them in order.
pub mod Defs
pub mod Runs
pub mod Order
pub mod Drain
pub mod Phases
