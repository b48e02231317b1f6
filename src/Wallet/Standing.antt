-- ===== src/Wallet/Standing.antt =====
-- Proofs about deposits that have been rejected, whatever happens to the wallet afterwards.
use pokerhub.Prelude.{
  ◌∷◌, [], ◌==◌, true, ℕ, find, refl, includes, inr, inl, Bool-cases, ◌≡◌, none, some,
  if◌then◌else◌, Option, List, ◌∙◌, ◌&&◌, any, not,
}
use pokerhub.Wallet.Record.{record_entries, find_account, find_named}
use pokerhub.Wallet.Types.{
  AccountName, OnDone-if, OnDone, locked, RefId, OnDone-bind, plain, done, failed, any_result,
  RefType, Outcome,
}
use pokerhub.Wallet.Deposits.{
  reject_pending_deposit, confirm_pending_deposit, credit_deposit, as_confirmed, as_rejected,
  cancel_pending_deposit, mark_action_required, reject_each,
}
use pokerhub.Wallet.Bank.{
  notice, find_deposit, Reason, set_ledger, Bank, save_deposit, PendingDeposit, deposit_rejected,
  is_pending, DepositStatus, expired, deposit_cancelled,
}
use pokerhub.Wallet.Decided.{found-id}
use pokerhub.Prelude.Int.{ℤ}
use pokerhub.Prelude.All.{OptionAll}
use pokerhub.Wallet.Hand.{neg}
use pokerhub.Wallet.Rows.{IsRejected, save_in, mark_in, found_rejected}

module _ (i : ℕ) where
  save-IsRejected :
      (e : PendingDeposit) (b : Bank)
      → ((e.id == i) ≡ true → e.status ≡ DepositStatus.rejected)
      → IsRejected i b
      → IsRejected i (save_deposit e b)
  unfolding save_deposit
  save-IsRejected e b own h = save_in i e b.deposits own h

  not_pending :
      {A : Type 0} (s : DepositStatus) → s ≡ DepositStatus.rejected → is_pending s ≡ true → A
  not_pending s e h = absurd (cc (rw e at h))

  -- The shape of both decisions: only a pending deposit is changed.
  decision-IsRejected :
      (j : ℕ) (b : Bank) (f : PendingDeposit → Outcome Bank) (o : Option PendingDeposit)
      → IsRejected i b
      → find_deposit j b ≡ o
      → OptionAll (λ d. (d.id == j) ≡ true) o
      → ((d : PendingDeposit)
          → ((d.id == i) ≡ true → d.status ≡ DepositStatus.rejected)
          → is_pending d.status ≡ true
          → OnDone (IsRejected i) (f d))
      → OnDone
          (IsRejected i)
          (elim o [ none ↦ done b | some d ↦ if is_pending d.status then f d else done b ])
  decision-IsRejected j b f none h found same step = h
  decision-IsRejected j b f (some d) h found same step =
      OnDone-if (IsRejected i) (is_pending d.status) (f d) (done b)
        (λ waiting. step d (found_rejected i j b d h found same) waiting) λ _. h

  pub reject-IsRejected :
      (j admin now : ℕ) (reason : Option Reason) (b : Bank)
      → IsRejected i b
      → OnDone (IsRejected i) (reject_pending_deposit j admin reason now b)
  unfolding reject_pending_deposit find_deposit
  reject-IsRejected j admin now reason b h =
      OnDone-if (IsRejected i) (includes j b.locks) (failed locked) _ (λ _. tt)
        λ _.
          decision-IsRejected j b
            (λ d.
              done (
                notice (save_deposit (as_rejected admin now reason d) b) (deposit_rejected j ∷ [])))
            (find_deposit j b) h refl (found-id j b.deposits)
            λ d _ _. save-IsRejected (as_rejected admin now reason d) b (λ _. refl) h

  pub reject_each-IsRejected :
      (now : ℕ) (ds : List PendingDeposit) (b : Bank)
      → IsRejected i b
      → OnDone (IsRejected i) (reject_each now ds b)
  unfolding reject_each
  reject_each-IsRejected now [] b h = h
  reject_each-IsRejected now (d ∷ ds) b h =
      OnDone-bind (IsRejected i) (IsRejected i) (reject_pending_deposit d.id 0 (some expired) now b)
        _ (reject-IsRejected d.id 0 now (some expired) b h)
        λ after kept. reject_each-IsRejected now ds after kept

  pub cancel-IsRejected :
      (user j now : ℕ) (b : Bank)
      → IsRejected i b
      → OnDone (IsRejected i) (cancel_pending_deposit user j now b)
  unfolding cancel_pending_deposit
  cancel-IsRejected user j now b h = found (find (λ d. d.id == j && d.user_id == user) b.deposits)
    where
      found :
          (o : Option PendingDeposit)
          → OnDone (IsRejected i) (elim o [
            | none ↦ done b
            | some d ↦
                if is_pending d.status
                then done (
                    notice
                      (save_deposit (as_rejected user now d.rejection_reason d) b)
                      (deposit_cancelled j ∷ []))
                else done b
          ])
      found none = h
      found (some d) =
          OnDone-if (IsRejected i) (is_pending d.status) _ (done b)
            (λ _. save-IsRejected (as_rejected user now d.rejection_reason d) b (λ _. refl) h)
            λ _. h

  pub mark-IsRejected :
      (j : ℕ) (b : Bank) → IsRejected i b → IsRejected i (mark_action_required j b)
  unfolding mark_action_required
  mark-IsRejected j b h =
      let waiting =
        λ (d : PendingDeposit). d.id == j && is_pending d.status && not d.action_required in
      elim (Bool-cases (any waiting b.deposits)) [
        | inl some_waiting ↦ rw some_waiting (mark_in i waiting b.deposits ∙ h)
        | inr no_waiting ↦ rw no_waiting h
      ]

  module _ (hash : RefType → RefId → ℕ → ℤ → ℕ) where
    credit-IsRejected :
        (admin now : ℕ) (d : PendingDeposit) (b : Bank)
        → IsRejected i b
        → ((d.id == i) ≡ true → d.status ≡ DepositStatus.rejected)
        → is_pending d.status ≡ true
        → OnDone (IsRejected i) (credit_deposit hash admin now d b)
    unfolding credit_deposit
    credit-IsRejected admin now d b h own waiting =
        OnDone-bind (λ _. Unit {0}) (IsRejected i) (find_account d.user_id d.currency b.ledger) _
          (any_result _)
          λ user _.
            OnDone-bind (λ _. Unit {0}) (IsRejected i)
              (find_named AccountName.house d.currency b.ledger) _ (any_result _)
              λ pool _.
                OnDone-bind (λ _. Unit {0}) (IsRejected i)
                  (record_entries hash RefType.deposit (plain d.id)
                    (record { account = pool; amount = neg d.amount }
                      ∷ record { account = user; amount = d.amount }
                      ∷ [])
                    none b.ledger)
                  _ (any_result _)
                  λ after _.
                    save-IsRejected (as_confirmed admin now d) (set_ledger b after)
                      (λ same. not_pending d.status (own same) waiting) h

    pub confirm-IsRejected :
        (j admin now : ℕ) (b : Bank)
        → IsRejected i b
        → OnDone (IsRejected i) (confirm_pending_deposit hash j admin now b)
    unfolding confirm_pending_deposit find_deposit
    confirm-IsRejected j admin now b h =
        OnDone-if (IsRejected i) (includes j b.locks) (failed locked) _ (λ _. tt)
          λ _.
            decision-IsRejected j b (λ d. credit_deposit hash admin now d b) (find_deposit j b) h
              refl (found-id j b.deposits)
              λ d own waiting. credit-IsRejected admin now d b h own waiting
