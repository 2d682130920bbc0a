-- ===== src/Mr.antt =====
-- MapReduce: src/mr, its sequential version src/main/mrsequential.go and the plugins of src/mrapps.
pub mod Coordinator
pub mod Worker
pub mod WordCount
mod Tests
