-- ===== src/Table/Chips.antt =====
-- The chips of a hand: what each operation of the state machine does to the stacks and the pot.
pub mod Sums
pub mod Levels
pub mod Payout
pub mod Showdown
pub mod Dealing
pub mod Phases
pub mod Step
