-- ===== src/Tests.antt =====
-- A concrete environment and chain, and the theorems applied to it.
mod World
mod Units
mod Runs
mod Calls
mod Rules
mod Nodes
mod Mining
mod Rounds
mod Growth
mod Dust
mod Methods
mod Toys
mod Starts
mod Apis
