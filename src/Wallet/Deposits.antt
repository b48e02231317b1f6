-- ===== src/Wallet/Deposits.antt =====
-- Deciding on bank-transfer deposits: `confirmPendingDeposit`, `rejectPendingDeposit`,
-- `cancelPendingDeposit`, `markActionRequiredIfPending` and `rejectExpiredPendingDeposits`.
use pokerhub.Wallet.Bank.{
  rejected, Bank, deposit_confirmed, deposit_waiting, confirmed, PendingDeposit, deposit_cancelled,
  set_ledger, save_deposit, Reason, expired, notice, deposit_rejected, is_pending, find_deposit,
}
use pokerhub.Prelude.{
  Option, any, includes, find, none, ◌∷◌, filter, ℕ, ◌&&◌, ltb, true, some, if◌then◌else◌, [],
  false, ◌==◌, not, List, update_first,
}
use pokerhub.Wallet.Record.{find_account, record_entries, find_named}
use pokerhub.Prelude.Int.{ℤ}
use pokerhub.Wallet.Types.{RefId, locked, failed, Outcome, AccountName, ◌>>=◌, RefType, plain, done}
use pokerhub.Wallet.Hand.{neg}

-- The deposit once it has been confirmed or rejected.
abbrev pub as_confirmed : ℕ → ℕ → PendingDeposit → PendingDeposit
as_confirmed admin now d = record d {
  status = confirmed;
  confirmed_by = some admin;
  confirmed_at = some now;
  action_required = false;
}

abbrev pub as_rejected : ℕ → ℕ → Option Reason → PendingDeposit → PendingDeposit
as_rejected admin now reason d = record d {
  status = rejected;
  rejected_by = some admin;
  rejected_at = some now;
  rejection_reason = reason;
  action_required = false;
}

-- `rejectPendingDeposit(id, adminId, reason)`
unfoldable pub reject_pending_deposit : ℕ → ℕ → Option Reason → ℕ → Bank → Outcome Bank
unfolding find_deposit save_deposit
reject_pending_deposit i admin reason now b =
    if includes i b.locks then failed locked else elim (find_deposit i b) [
      | none ↦ done b
      | some d ↦
          if is_pending d.status
          then done
              (notice (save_deposit (as_rejected admin now reason d) b) (deposit_rejected i ∷ []))
          else done b
    ]

-- `cancelPendingDeposit(userId, depositId)`: without a lock, and only for the user's own deposit.
unfoldable pub cancel_pending_deposit : ℕ → ℕ → ℕ → Bank → Outcome Bank
unfolding save_deposit
cancel_pending_deposit user i now b = elim (find (λ d. d.id == i && d.user_id == user) b.deposits) [
  | none ↦ done b
  | some d ↦
      if is_pending d.status
      then done (
          notice (save_deposit (as_rejected user now d.rejection_reason d) b)
            (deposit_cancelled i ∷ []))
      else done b
]

-- `markActionRequiredIfPending(id)`
unfoldable pub mark_action_required : ℕ → Bank → Bank
mark_action_required i b =
    let waiting =
      λ (d : PendingDeposit). d.id == i && is_pending d.status && not d.action_required in
    if any waiting b.deposits
    then notice
        (record b {
          deposits = update_first waiting (λ d. record d { action_required = true }) b.deposits;
        })
        (deposit_waiting i ∷ [])
    else b

-- The loop of `rejectExpiredPendingDeposits` over the deposits that were found.
unfoldable pub reject_each : ℕ → List PendingDeposit → Bank → Outcome Bank
unfolding reject_pending_deposit
reject_each now [] b = done b
reject_each now (d ∷ ds) b =
    reject_pending_deposit d.id 0 (some expired) now b >>= λ after. reject_each now ds after

-- `rejectExpiredPendingDeposits`; the administrator `'system'` is number 0.
unfoldable pub reject_expired : ℕ → Bank → Outcome Bank
unfolding reject_each
reject_expired now b =
    reject_each now (filter (λ d. is_pending d.status && ltb d.expires_at now) b.deposits) b

module _ (hash : RefType → RefId → ℕ → ℤ → ℕ) where
  -- What `confirmPendingDeposit` does to a pending deposit.
  unfoldable pub credit_deposit : ℕ → ℕ → PendingDeposit → Bank → Outcome Bank
  unfolding find_account find_named record_entries save_deposit
  credit_deposit admin now d b = find_account d.user_id d.currency b.ledger >>= λ user.
      find_named AccountName.house d.currency b.ledger >>= λ house.
      record_entries hash RefType.deposit (plain d.id)
        (record { account = house; amount = neg d.amount }
          ∷ record { account = user; amount = d.amount }
          ∷ [])
        none b.ledger
      >>= λ after. done (
          notice (save_deposit (as_confirmed admin now d) (set_ledger b after))
            (deposit_confirmed d.id ∷ []))

  -- `confirmPendingDeposit(id, adminId)`
  unfoldable pub confirm_pending_deposit : ℕ → ℕ → ℕ → Bank → Outcome Bank
  unfolding find_deposit credit_deposit
  confirm_pending_deposit i admin now b =
      if includes i b.locks then failed locked else elim (find_deposit i b) [
        | none ↦ done b
        | some d ↦ if is_pending d.status then credit_deposit admin now d b else done b
      ]
