-- ===== src/Wallet/Payments.antt =====
-- Card payments, payouts and corrections: `confirm3DS`, `processDisbursement`, `refundDisbursement`,
-- `requestDisbursement`, `rejectPendingWithdrawal`, `confirmPendingWithdrawal` and `adminAdjustBalance`.
use pokerhub.Prelude.{
  Option, includes, find, none, ◌∷◌, filter, Bool, ℕ, ◌&&◌, true, ◌++◌, some, if◌then◌else◌, [],
  false, ◌==◌, not, List, update_first,
}
use pokerhub.Wallet.Record.{find_account, record_entries, find_named}
use pokerhub.Wallet.Bank.{
  Bank, Disbursement, disbursement_request, DisbursementStatus, PaymentOp, pay_in, set_ledger,
  Challenge, pay_out, is_open, notice, chargeback_seen,
}
use pokerhub.Wallet.Types.{
  approved, RefId, failed, Outcome, Ledger, ProviderStatus, AccountName, risky, Account, ◌>>=◌,
  RefType, plain, done, chargeback, not_found, payout, admin_add, withdraw_reject, admin_remove,
}
use pokerhub.Prelude.Int.{ℤ, pos}
use pokerhub.Wallet.Hand.{neg, reserve_funds}

abbrev pub is_approved : ProviderStatus → Bool
is_approved approved = true
is_approved _ = false

abbrev pub lookup_challenge : ℕ → List (ℕ × Challenge) → Option Challenge
lookup_challenge k [] = none
lookup_challenge k ((j, c) ∷ m) = if j == k then some c else lookup_challenge k m

abbrev pub delete_challenge : ℕ → List (ℕ × Challenge) → List (ℕ × Challenge)
delete_challenge k m = filter (λ e. not (e.0 == k)) m

-- `disbursements.findOneBy({ id, status: 'pending' })`
unfoldable pub find_open : ℕ → Bank → Option Disbursement
find_open i b = find (λ d. d.id == i && is_open d.status) b.disbursements

-- `accounts.findOneByOrFail({ id })`
unfoldable pub find_any_account : ℕ → Ledger → Outcome Account
find_any_account i l = elim (find (λ a. a.id == i) l.accounts) [
  | none ↦ failed not_found
  | some a ↦ done a
]

-- `requestDisbursement(id, currency)`; `kyc_ok` is `KycService.validate`, which throws or returns.
unfoldable pub request_disbursement : (Account → Outcome (Unit {0})) → ℕ → ℕ → Bank → Outcome Bank
unfolding find_account
request_disbursement kyc_ok i currency b = elim (find (λ d. d.id == i) b.disbursements) [
  | none ↦ failed not_found
  | some d ↦ find_account d.account_id currency b.ledger >>= λ account.
      kyc_ok account >>= λ _. done (notice b (disbursement_request d.id d.amount ∷ []))
]

-- `confirmPendingWithdrawal(id)`
unfoldable pub confirm_pending_withdrawal : (Account → Outcome (Unit {0})) → ℕ → Bank → Outcome Bank
unfolding find_open find_any_account request_disbursement
confirm_pending_withdrawal kyc_ok i b = elim (find_open i b) [
  | none ↦ done b
  | some d ↦ find_any_account d.account_id b.ledger >>= λ account.
      request_disbursement kyc_ok d.id account.currency b
]

pub data Adjustment : Type 0 where
  add remove freeze : Adjustment

-- `completed`, with the time and the provider's reference.
abbrev pub completed_with : ℕ → ℕ → Disbursement → Disbursement
completed_with txn now d = record d {
  status = DisbursementStatus.completed;
  completed_at = some now;
  provider_ref = some txn;
}

-- `disbursements.save(disb)`
unfoldable pub save_disbursement : Disbursement → Bank → Bank
save_disbursement d b = record b {
  disbursements = update_first (λ e. e.id == d.id) (λ _. d) b.disbursements;
}

module _ (hash : RefType → RefId → ℕ → ℤ → ℕ) where
  -- `record` of two movements that cancel, from the first account to the second.
  unfoldable pub transfer :
      RefType
      → RefId
      → Option (ℕ × ProviderStatus)
      → Account
      → Account
      → ℤ
      → Ledger
      → Outcome Ledger
  unfolding record_entries
  transfer t ref provider from to amount l =
      record_entries hash t ref
        (record { account = from; amount = neg amount }
          ∷ record { account = to; amount = amount }
          ∷ [])
        provider l

  -- What `confirm3DS` does by operation and status, with the accounts of the player and the house.
  unfoldable pub settle_with :
      ℕ
      → ℕ
      → ℕ
      → ℕ
      → Challenge
      → Bank
      → Account
      → Account
      → PaymentOp
      → ProviderStatus
      → Outcome Bank
  unfolding transfer
  settle_with txn ref new_id new_key c b user house_account pay_in approved =
      transfer RefType.deposit (plain ref) (some (txn, approved)) house_account user c.amount
        b.ledger
      >>= λ after. done (set_ledger b after)
  settle_with txn ref new_id new_key c b user house_account pay_in chargeback = elim c.device [
    | none ↦ done b
    | some device ↦ done (notice b (chargeback_seen c.account_id device ∷ []))
  ]
  settle_with txn ref new_id new_key c b user house_account pay_in risky = done b
  settle_with txn ref new_id new_key c b user house_account pay_out approved =
      transfer RefType.withdraw (plain ref) (some (txn, approved)) user house_account c.amount
        b.ledger
      >>= λ after. done (record b {
        ledger = after;
        disbursements =
            b.disbursements
            ++ record {
              id = new_id;
              account_id = c.account_id;
              amount = c.amount;
              idempotency_key = new_key;
              status = DisbursementStatus.pending;
              provider_ref = none;
              completed_at = none;
            }
              ∷ [];
        queued = b.queued ++ new_id ∷ [];
      })
  settle_with txn ref new_id new_key c b user house_account pay_out risky = done b
  settle_with txn ref new_id new_key c b user house_account pay_out chargeback = done b

  -- `confirm3DS(event)` for a challenge that is stored.
  unfoldable pub settle_challenge : ℕ → ProviderStatus → ℕ → ℕ → ℕ → Challenge → Bank → Outcome Bank
  unfolding find_account find_named settle_with
  settle_challenge txn status ref new_id new_key c b =
      find_account c.account_id c.currency b.ledger >>= λ user.
      find_named AccountName.house c.currency b.ledger >>= λ house_account.
      settle_with txn ref new_id new_key c b user house_account c.op status

  -- `confirm3DS(event)`
  unfoldable pub confirm_3ds : ℕ → ℕ → ProviderStatus → ℕ → ℕ → ℕ → Bank → Outcome Bank
  unfolding settle_challenge
  confirm_3ds event txn status ref new_id new_key b =
      if includes event b.webhooks
      then done b
      else let seen = record b { webhooks = b.webhooks ++ event ∷ [] } in
        elim (lookup_challenge txn b.challenges) [
          | none ↦ done seen
          | some c ↦
              settle_challenge txn status ref new_id new_key c
                (record seen { challenges = delete_challenge txn b.challenges })
        ]

  -- `processDisbursement(eventId, idempotencyKey, providerTxnId, status)`
  unfoldable pub process_disbursement : ℕ → ℕ → ℕ → ProviderStatus → ℕ → Bank → Outcome Bank
  unfolding find_any_account find_named record_entries save_disbursement
  process_disbursement event key txn status now b =
      if includes event b.webhooks
      then done b
      else let seen = record b { webhooks = b.webhooks ++ event ∷ [] } in
        elim (find (λ d. d.idempotency_key == key) b.disbursements) [
          | none ↦ done seen
          | some d ↦
              if is_open d.status
              then (find_any_account d.account_id b.ledger >>= λ user.
                  find_named AccountName.house user.currency b.ledger >>= λ house_account.
                  record_entries hash payout (plain d.id)
                    (record { account = house_account; amount = pos 0 } ∷ []) (some (txn, status))
                    b.ledger
                  >>= λ after.
                      (if is_approved status
                        then done
                            (save_disbursement (completed_with txn now d) (set_ledger seen after))
                        else done (record seen { ledger = after; queued = b.queued ++ d.id ∷ [] })))
              else done seen
        ]

  -- `rejectPendingWithdrawal(id)`, with `refundDisbursement`.
  unfoldable pub reject_pending_withdrawal : ℕ → Bank → Outcome Bank
  unfolding find_open find_any_account find_named transfer
  reject_pending_withdrawal i b = elim (find_open i b) [
    | none ↦ done b
    | some d ↦ find_any_account d.account_id b.ledger >>= λ user.
        find_named AccountName.house user.currency b.ledger >>= λ house_account.
        transfer withdraw_reject (plain d.id) none house_account user d.amount b.ledger >>= λ after.
        done (record b {
          ledger = after;
          disbursements = filter (λ e. not (e.id == d.id)) b.disbursements;
        })
  ]

  -- The branches of `adminAdjustBalance`.
  unfoldable pub adjust : Account → Account → ℕ → Adjustment → ℤ → ℕ → ℕ → Ledger → Outcome Ledger
  unfolding transfer reserve_funds
  adjust user house_account i add amount currency ref l =
      transfer admin_add (plain ref) none house_account user amount l
  adjust user house_account i remove amount currency ref l =
      transfer admin_remove (plain ref) none user house_account amount l
  adjust user house_account i freeze amount currency ref l =
      reserve_funds hash i amount (plain ref) currency none l

  -- `adminAdjustBalance(userId, action, amount, currency)`
  unfoldable pub admin_adjust : ℕ → Adjustment → ℤ → ℕ → ℕ → Ledger → Outcome Ledger
  unfolding find_account find_named adjust
  admin_adjust i action amount currency ref l = find_account i currency l >>= λ user.
      find_named AccountName.house currency l >>= λ house_account.
      adjust user house_account i action amount currency ref l
