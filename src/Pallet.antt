-- ===== src/Pallet.antt =====
-- The calls and hooks of the consensus pallet, pallets/pallet-ghost-consensus/src/lib.rs: a file
-- for each call with its laws below it, and the transitions of the whole pallet.
pub mod Submit
pub mod Stake
pub mod Validate
pub mod Report
pub mod Hooks
pub mod Backing
pub mod Transitions
pub mod Invariant
pub mod Spec
pub mod Round
pub mod Stuck
pub mod Growth
