-- ===== src/Auth.antt =====
-- Accounts and sessions: `backend/src/auth/auth.service.ts` and `backend/src/session/session.service.ts`.
pub mod Sessions
pub mod Service
pub mod Live
pub mod Ended
