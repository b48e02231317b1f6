-- ===== src/Lib.antt =====
-- A verification library for the game core and the wallet of the poker platform.
--
-- The program deals a hand with a provably fair shuffle (shared/verify/index.ts), drives it through
-- its betting rounds (backend/src/game/state-machine.ts), divides the pots among the best hands
-- (shared/poker/sidePots.ts) and books the result.
--
-- Deck: `prng`, `shuffle` and `standardDeck` of shared/verify/index.ts, and `buildDeck` of the state
--   machine. SHA-256 is a parameter, the first four bytes of each digest. Children with proofs: Build
--   (the cards of the deck), Shuffle (its result as a permutation), Undefined (slots without a card).
-- HandRank: `score`, `evaluate5` and `evaluateHand` of shared/poker/sidePots.ts. Children with proofs: Best
--   (the choices of five), Score (order within a category), Shape and Misrank (order across
--   the categories).
-- Table: the state machine. Types holds its state, actions and errors; Bets `findPlayer` and `placeBet`;
--   Round `finishBettingRound` and `advanceStreet`; Deal `ensureDeckCapacity` and `dealCommunity`;
--   Settle `settlePots`; Step `apply`, one function for each phase; Deltas `recordDeltas` of
--   backend/src/game/settlement.ts. Chips and its children are about
--   the sum of all chips.
-- Wallet: double-entry bookkeeping, backend/src/wallet. Types holds the entities; Record
--   `WalletService.record`; Hand `reserve`, `commit`, `rollback` and settlement.service.ts; Reconcile
--   `reconcile` and the journal's sums; Bank, Deposits and Payments the pending deposits, disbursements and
--   webhooks; Losses `writeHandLedger`. SHA-256 over a movement is a parameter.
--   Children with proofs: Journal, Books and Sound (balances and the journal), Decided, Rows, Standing and
--   Rejected (decisions on deposits), Repeats (webhooks), Charges (losses of one hand).
-- Engine: backend/src/game/engine/index.ts. Log is hand-log.ts; Run creation, `applyAction` and
--   `replayHand`; Views `getPublicState` and state-sanitize.ts; Funds `reserveStacks` and the wallet's calls
--   of `settle`. The engine drives Table's machine and calls Wallet. Children with proofs: Replay and Hand
--   (the log), Stacks (reservations).
-- Tournament: backend/src/tournament and shared/utils/icm.ts. States the operations on a tournament's state;
--   Prizes the prize tables, the bubble and the rounding of payouts; Balance `balanceTables`, whose loop has
--   the sum of the squares of the sizes and one as fuel, which every round lowers. Percentages are a parameter.
--   Children with proofs: Sums (prizes), Sizes, Level, Rounds, Free and Calm (balancing).
-- Wallet/Limits and Wallet/Desk: the limits, withdrawals, deposits and bank transfers of wallet.service.ts and
--   chargeback.service.ts. Idempotency keys expire by a step of their own, `expire_slot`; challenges, counters
--   and the keys of webhooks do not expire. Children with proofs: Bounds and Caps (counters), Passed and
--   Metered (checks that pass), Desks (withdrawals), Keys (idempotency keys).
-- Auth: backend/src/auth/auth.service.ts and backend/src/session/session.service.ts. Sessions holds the refresh
--   tokens of SessionService, Service the state and operations of AuthService and `happen`, one event of it;
--   that a token, a mark, a code or a counter expires is an event. bcrypt and SHA-256 are parameters. Children
--   with proofs: Live (tokens that are gone) and Ended (sessions that have ended).
-- Gateway: backend/src/game/game.gateway.ts, with clock.service.ts and
--   backend/src/feature-flags. Types holds the gateway's fields and messages; Flags the flags; Outbound
--   `enqueue` and the frames; Limits `isRateLimited`; Handler `handleAction`; Calls the other handlers and
--   sequences of them; Restart `restoreState`. The gateway drives the engines of Engine. Children with
--   proofs: Core, Publish and Effect (what each input does), Once (repetitions), Tables (engines), Stored
--   (copies and restart), Window (the rate limit). The answers of a room's worker are part of the input; the
--   handlers do not interleave.
-- Prelude: shared names, lists over native numbers, counts, sorting, integers, association lists.
-- Tests: runs at concrete inputs.
--
-- Player identifiers are only compared, and are numbers; amounts are whole chips. All loops but
-- that of `balanceTables` are structural recursions, without fuel. An error of the source is a value of
-- `Error` or `WalletError`; the wallet's operations do not interleave, and after an error the model has no
-- state, but for the limits and requests of Wallet/Limits and Wallet/Desk, which keep theirs.
-- Of tournaments, seats, scheduling, clocks and the recursion of the independent chip model are left out.
-- Not modelled: the web sockets, the database layer, logging, telemetry, the frontend.
pub mod Prelude
pub mod Deck
pub mod HandRank
pub mod Table
pub mod Wallet
pub mod Engine
pub mod Gateway
pub mod Auth
pub mod Tournament
mod Tests
