-- ===== src/Tests.antt =====
-- Runs of the model on concrete inputs, and each theorem applied at one.
mod Deck
mod Hands
mod Hand
mod Wallet
mod Engine
mod Limits
mod Tournament
mod Gateway
mod Auth
