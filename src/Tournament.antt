-- ===== src/Tournament.antt =====
-- Tournaments: `backend/src/tournament` and the payouts of `shared/utils/icm.ts`.
pub mod States
pub mod Prizes
pub mod Sums
pub mod Balance
pub mod Sizes
pub mod Level
pub mod Rounds
pub mod Free
pub mod Calm
