-- ===== src/Wallet/Bank.antt =====
-- The stores of `WalletService` beside the ledger: pending deposits, disbursements, and what it keeps in
-- Redis (webhook events seen, 3-D Secure challenges, deposit locks). Keys do not expire here.
-- Identifiers that the source draws at random and the current time are arguments. A disbursement that is
-- enqueued is appended to `queued`.
use pokerhub.Prelude.{Option, find, ℕ, Bool, true, ◌++◌, false, ◌==◌, List, update_first}
use pokerhub.Prelude.Int.{ℤ}
use pokerhub.Wallet.Types.{Ledger}

pub data DepositStatus : Type 0 where
  pending confirmed rejected : DepositStatus

pub data Reason : Type 0 where
  expired by_admin : Reason

pub record PendingDeposit : Type 0 where
  pub id : ℕ
  pub user_id : ℕ
  pub amount : ℤ
  pub currency : ℕ
  pub status : DepositStatus
  pub action_required : Bool
  pub expires_at : ℕ
  pub confirmed_by : Option ℕ
  pub confirmed_at : Option ℕ
  pub rejected_by : Option ℕ
  pub rejected_at : Option ℕ
  pub rejection_reason : Option Reason

pub data DisbursementStatus : Type 0 where
  pending completed : DisbursementStatus

pub record Disbursement : Type 0 where
  pub id : ℕ
  pub account_id : ℕ
  pub amount : ℤ
  pub idempotency_key : ℕ
  pub status : DisbursementStatus
  pub provider_ref : Option ℕ
  pub completed_at : Option ℕ

pub data PaymentOp : Type 0 where
  pay_in pay_out : PaymentOp

pub record Challenge : Type 0 where
  pub op : PaymentOp
  pub account_id : ℕ
  pub amount : ℤ
  pub currency : ℕ
  pub device : Option ℕ

-- `notification.create`, `wallet.deposit.*`, `admin.deposit.*`, `wallet.disbursement.request` and the chargeback
-- monitor's record.
pub data Notice : Type 0 where
  deposit_confirmed deposit_rejected deposit_cancelled : ℕ → Notice
  deposit_waiting : ℕ → Notice
  disbursement_request : ℕ → ℤ → Notice
  chargeback_seen : ℕ → ℕ → Notice

pub record Bank : Type 0 where
  pub ledger : Ledger
  pub deposits : List PendingDeposit
  pub disbursements : List Disbursement
  pub webhooks : List ℕ
  pub challenges : List (ℕ × Challenge)
  pub locks : List ℕ
  pub queued : List ℕ
  pub notices : List Notice

abbrev pub is_pending : DepositStatus → Bool
is_pending pending = true
is_pending _ = false

abbrev pub is_open : DisbursementStatus → Bool
is_open pending = true
is_open completed = false

-- `pendingDeposits.findOneBy({ id })`
unfoldable pub find_deposit : ℕ → Bank → Option PendingDeposit
find_deposit i b = find (λ d. d.id == i) b.deposits

-- `pendingDeposits.save(deposit)`
unfoldable pub save_deposit : PendingDeposit → Bank → Bank
save_deposit d b = record b { deposits = update_first (λ e. e.id == d.id) (λ _. d) b.deposits }

abbrev pub set_ledger : Bank → Ledger → Bank
set_ledger b l = record b { ledger = l }

abbrev pub notice : Bank → List Notice → Bank
notice b ns = record b { notices = b.notices ++ ns }
