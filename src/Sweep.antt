-- ===== src/Sweep.antt =====
-- prbench/sweep.py: the planner, in the order of its steps. `GpuSets` resolves the GPU sets of a
-- group, `Params` expands parameter grids, `Control` assigns GPU control CPUs, and `Plan` builds
-- the tasks of a group and of the campaign.
pub mod GpuSets
pub mod Params
pub mod Control
pub mod Plan
