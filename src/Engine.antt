-- ===== src/Engine.antt =====
-- The game engine, `backend/src/game/engine/index.ts`, with the log of its actions,
-- `backend/src/game/hand-log.ts`.
pub mod Log
pub mod Run
pub mod Views
pub mod Funds
pub mod Replay
pub mod Hand
pub mod Stacks
