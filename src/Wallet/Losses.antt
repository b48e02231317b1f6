-- ===== src/Wallet/Losses.antt =====
-- `writeHandLedger` of `backend/src/wallet/hand-ledger.ts`. Its transaction is undone when an error is
-- thrown, as a failed `Outcome` has no ledger.
use pokerhub.Table.Deltas.{SettlementEntry}
use pokerhub.Wallet.Hand.{reserve_funds, neg, commit_funds}
use pokerhub.Wallet.Types.{done, Ledger, RefType, Outcome, ◌>>=◌, RefId}
use pokerhub.Prelude.Int.{◌+ℤ◌, ltb_ℤ, pos, ℤ}
use pokerhub.Prelude.{ℕ, ◌∷◌, [], if◌then◌else◌, some, List}

module _ (hash : RefType → RefId → ℕ → ℤ → ℕ) (key : RefId) (currency : ℕ) where
  -- The loop over the settlements, with `total`.
  unfoldable pub reserve_losses : List SettlementEntry → ℤ → Ledger → Outcome (ℤ × Ledger)
  unfolding reserve_funds
  reserve_losses [] total l = done (total, l)
  reserve_losses (e ∷ es) total l =
      if ltb_ℤ e.delta (pos 0)
      then (reserve_funds hash e.player_id (neg e.delta) key currency (some key) l >>= λ n.
          reserve_losses es (total +ℤ neg e.delta) n)
      else reserve_losses es total l

  -- `writeHandLedger(wallet, dataSource, handId, street, idx, settlements, currency)`, where `key` is made of
  -- the hand, the street and the index.
  unfoldable pub write_hand_ledger : List SettlementEntry → Ledger → Outcome Ledger
  unfolding reserve_losses commit_funds
  write_hand_ledger es l = reserve_losses es (pos 0) l >>= λ (r : ℤ × Ledger).
      (if ltb_ℤ (pos 0) r.0
        then commit_funds hash key r.0 (pos 0) currency (some key) r.1
        else done r.1)
