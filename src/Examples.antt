-- ===== src/Examples.antt =====
-- The theorems on the sample machine of Samples.antt, and tests of the definitions on it.
mod Pools
mod Sets
mod Grids
mod Workers
mod Campaigns
mod Checks
mod Budgets
mod Verdicts
mod Sessions
mod Meters
mod Values
mod Preflights
mod Commands
mod Records
