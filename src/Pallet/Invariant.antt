-- ===== src/Pallet/Invariant.antt =====
-- What holds of the pallet's state over every sequence of steps.
pub mod Phase
pub mod Escrow
pub mod History
pub mod Chain
pub mod Genesis
pub mod Supply
pub mod Withdrawal
pub mod Target
pub mod Activity
