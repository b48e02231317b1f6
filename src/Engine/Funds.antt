-- ===== src/Engine/Funds.antt =====
-- The wallet's calls of `GameEngine`: `reserveStacks` and those of `settle`. The settlement service is
-- there, and the hand ledger is written; a failure ends the calls.
use pokerhub.Wallet.Types.{◌>>=◌}
use pokerhub.Prelude.Int.{◌+ℤ◌, ℤ, ◌-ℤ◌, pos, ltb_ℤ}
use pokerhub.Prelude.{◌∷◌, none, ℕ, ◌+◌, [], List, if◌then◌else◌, some}
use pokerhub.Wallet.Hand.{neg, settlement_reserve, commit_funds, reserve_funds, rollback_funds}
use pokerhub.Table.Round.{lookup}
use pokerhub.Wallet.Types.{RefType, done, plain, Outcome, Ledger, RefId, hand_step}
use pokerhub.Wallet.Losses.{write_hand_ledger}
use pokerhub.Table.Types.{Street, Player}
use pokerhub.Table.Deltas.{SettlementEntry}

module _ (hash : RefType → RefId → ℕ → ℤ → ℕ) (hand currency : ℕ) where
  -- `reserveStacks()`
  unfoldable pub reserve_stacks : List Player → Ledger → Outcome Ledger
  unfolding reserve_funds
  reserve_stacks [] l = done l
  reserve_stacks (p ∷ ps) l =
      reserve_funds hash p.id (pos p.stack) (plain hand) currency none l >>= reserve_stacks ps

  abbrev pub loss_of : SettlementEntry → ℤ
  loss_of e = if ltb_ℤ e.delta (pos 0) then neg e.delta else pos 0

  abbrev pub refund_of : List (ℕ × ℕ) → SettlementEntry → ℤ
  refund_of initial e =
      pos (elim (lookup e.player_id initial) [ none ↦ 0 | some start ↦ start ]) -ℤ loss_of e

  -- The loop over the entries, with `idx` and `totalLoss`.
  unfoldable pub refund_each :
      Street → List (ℕ × ℕ) → List SettlementEntry → ℕ → ℤ → Ledger → Outcome (ℕ × ℤ × Ledger)
  unfolding settlement_reserve rollback_funds
  refund_each street initial [] idx total l = done (idx, total, l)
  refund_each street initial (e ∷ es) idx total l =
      let key = hand_step hand street idx in
      let refund = refund_of initial e in
      (if ltb_ℤ (pos 0) refund
        then (rollback_funds hash e.player_id refund (plain hand) currency (some key)
              (settlement_reserve key l)
            >>= λ n. done (idx + 1, n))
        else done (idx, l))
      >>= λ (r : ℕ × Ledger). refund_each street initial es r.0 (total +ℤ loss_of e) r.1

  -- `if (this.wallet && totalLoss > 0) { ... }`
  unfoldable pub commit_losses : Street → ℕ → ℤ → Ledger → Outcome Ledger
  unfolding settlement_reserve commit_funds
  commit_losses street idx total l =
      let key = hand_step hand street idx in
      if ltb_ℤ (pos 0) total
      then commit_funds hash (plain hand) total (pos 0) currency (some key)
          (settlement_reserve key l)
      else done l

  -- The wallet's part of `settle`, for the deltas that were recorded.
  unfoldable pub settle_funds :
      Street → List (ℕ × ℕ) → List SettlementEntry → Ledger → Outcome Ledger
  unfolding write_hand_ledger refund_each commit_losses
  settle_funds street initial entries l =
      write_hand_ledger hash (hand_step hand street 0) currency entries l >>= λ written.
      refund_each street initial entries 0 (pos 0) written >>= λ (r : ℕ × ℤ × Ledger).
      commit_losses street r.0 r.1 r.2
