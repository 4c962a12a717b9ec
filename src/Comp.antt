-- ===== src/Comp.antt =====
-- Completion objects (src/comp): the graph of operations and the synchronizer.
pub mod Graph
pub mod Sync
pub mod Tests
