-- ===== src/Planner.antt =====
-- The planner and executor (crates/noedb-planner/src): the parts that are modelled.
pub mod Like
pub mod SetOps
pub mod Calendar
pub mod Cast
pub mod Row
pub mod Operators
pub mod Eval
pub mod Value
mod Tests
pub mod Samples
mod EvalTests
