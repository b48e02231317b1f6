-- ===== src/Gateway.antt =====
-- The web socket gateway: `backend/src/game/game.gateway.ts` and what it calls.
pub mod Types
pub mod Flags
pub mod Outbound
pub mod Limits
pub mod Handler
pub mod Calls
pub mod Restart
pub mod Core
pub mod Publish
pub mod Effect
pub mod Steps
pub mod Once
pub mod Tables
pub mod Stored
pub mod Window
