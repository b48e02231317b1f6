-- ===== src/Table.antt =====
-- The hand state machine, `backend/src/game/state-machine.ts`, with the settlement of its pots,
-- `settlePots` of `shared/poker/sidePots.ts`, and `recordDeltas` of `backend/src/game/settlement.ts`.
pub mod Types
pub mod Bets
pub mod Round
pub mod Deal
pub mod Settle
pub mod Step
pub mod Chips
pub mod Deltas
pub mod Seats
pub mod Seating
