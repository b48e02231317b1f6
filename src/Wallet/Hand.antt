-- ===== src/Wallet/Hand.antt =====
-- `reserve`, `commit` and `rollback` of the wallet, and `SettlementService`.

use pokerhub.Table.Types.{street_number}
use pokerhub.Prelude.Int.{◌-ℤ◌, pos, ℤ}
use pokerhub.Wallet.Types.{
  hand_step, RefType, plain, SettlementStatus, Ledger, ◌>>=◌, reserved, RefId, AccountName, Outcome,
  done, committed,
}
use pokerhub.Prelude.{
  filter, false, ◌&&◌, map, any, if◌then◌else◌, not, ◌==◌, some, [], Bool, Option, ◌∷◌, true, ℕ,
  ◌++◌, none,
}
use pokerhub.Wallet.Record.{record_entries, find_named, find_account}

abbrev pub same_ref : RefId → RefId → Bool
same_ref (plain a) (plain b) = a == b
same_ref (hand_step a s i) (hand_step b t j) =
    a == b && street_number s == street_number t && i == j
same_ref _ _ = false

abbrev pub is_reserved : SettlementStatus → Bool
is_reserved reserved = true
is_reserved committed = false

-- `insert ... orIgnore()` under the unique key.
unfoldable pub settlement_reserve : RefId → Ledger → Ledger
settlement_reserve key l =
    if any (λ s. same_ref s.key key) l.settlements
    then l
    else record l { settlements = l.settlements ++ record { key = key; status = reserved } ∷ [] }

-- `settlements.update({ idempotencyKey }, { status: 'committed' })`
unfoldable pub settlement_mark : RefId → Ledger → Ledger
settlement_mark key l = record l {
  settlements =
      map (λ s. if same_ref s.key key then record s { status = committed } else s) l.settlements;
}

-- `SettlementService.commit`: only a reserved row is updated.
unfoldable pub settlement_commit : RefId → Ledger → Ledger
settlement_commit key l = record l {
  settlements =
      map
        (λ s.
          if same_ref s.key key && is_reserved s.status then record s { status = committed } else s)
        l.settlements;
}

-- `SettlementService.cancel`
unfoldable pub settlement_cancel : RefId → Ledger → Ledger
settlement_cancel key l = record l {
  settlements = filter (λ s. not (same_ref s.key key && is_reserved s.status)) l.settlements;
}

-- `if (idempotencyKey && this.settlements)`
abbrev pub with_key : (RefId → Ledger → Ledger) → Option RefId → Ledger → Ledger
with_key f none l = l
with_key f (some key) l = f key l

-- The key is split at `#`, and the settlement is cancelled if it has three parts.
unfoldable pub cancel_step : RefId → Ledger → Ledger
unfolding settlement_cancel
cancel_step (plain k) l = l
cancel_step (hand_step h s i) l = settlement_cancel (hand_step h s i) l

abbrev pub neg : ℤ → ℤ
neg a = pos 0 -ℤ a

module _ (hash : RefType → RefId → ℕ → ℤ → ℕ) where
  unfoldable pub reserve_funds : ℕ → ℤ → RefId → ℕ → Option RefId → Ledger → Outcome Ledger
  unfolding find_account find_named settlement_reserve record_entries
  reserve_funds i amount ref currency key l = find_account i currency l >>= λ user.
      find_named AccountName.reserve currency l >>= λ pool.
      record_entries hash RefType.reserve ref
        (record { account = user; amount = neg amount }
          ∷ record { account = pool; amount = amount }
          ∷ [])
        none (with_key settlement_reserve key l)

  unfoldable pub commit_funds : RefId → ℤ → ℤ → ℕ → Option RefId → Ledger → Outcome Ledger
  unfolding find_named settlement_mark record_entries
  commit_funds ref amount rake_amount currency key l =
      find_named AccountName.reserve currency l >>= λ pool.
      find_named AccountName.prize currency l >>= λ winnings.
      find_named AccountName.rake currency l >>= λ rake_account.
      record_entries hash RefType.commit ref
        (record { account = pool; amount = neg amount }
          ∷ record { account = winnings; amount = amount -ℤ rake_amount }
          ∷ record { account = rake_account; amount = rake_amount }
          ∷ [])
        none l
      >>= λ after. done (with_key settlement_mark key after)

  unfoldable pub rollback_funds : ℕ → ℤ → RefId → ℕ → Option RefId → Ledger → Outcome Ledger
  unfolding find_account find_named cancel_step record_entries
  rollback_funds i amount ref currency key l = find_named AccountName.reserve currency l >>= λ pool.
      find_account i currency l >>= λ user.
      record_entries hash RefType.rollback ref
        (record { account = pool; amount = neg amount }
          ∷ record { account = user; amount = amount }
          ∷ [])
        none l
      >>= λ after. done (with_key cancel_step key after)
