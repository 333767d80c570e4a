-- ===== src/Runner.antt =====
-- prbench/runner.py: one task's session with the native worker. `Session` is the state and the world
-- outside, `Worker` is `_run_worker`, `Budgets` and `Task` are `run_task` with the budgets that it checks,
-- `Thermal` is the thermal guard, `Gate` the idleness gate, and `Command` the worker's command line.
pub mod Session
pub mod Worker
pub mod Budgets
pub mod Task
pub mod Thermal
pub mod Gate
pub mod Command
