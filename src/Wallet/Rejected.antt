-- ===== src/Wallet/Rejected.antt =====
-- Proofs about what can follow the rejection of a deposit.
use pokerhub.Prelude.{
  ◌∷◌, [], ◌==◌, ◌++◌, true, ℕ, refl, includes, ◌≡◌, some, false, if◌then◌else◌, Option,
}
use pokerhub.Wallet.Types.{OnDone_elim, OnDone-if, OnDone, locked, RefId, done, failed, RefType}
use pokerhub.Wallet.Deposits.{
  reject_pending_deposit, confirm_pending_deposit, as_rejected, cancel_pending_deposit,
  mark_action_required, reject_expired,
}
use pokerhub.Wallet.Bank.{
  find_deposit, Reason, Bank, save_deposit, PendingDeposit, is_pending, DepositStatus,
}
use pokerhub.Wallet.Decided.{found-id}
use pokerhub.Wallet.Rows.{IsRejected, append_in, rejected_row, saved_in}
use pokerhub.Wallet.Standing.{
  reject-IsRejected, reject_each-IsRejected, cancel-IsRejected, mark-IsRejected, confirm-IsRejected,
}
use pokerhub.Prelude.Int.{ℤ}

module _ (hash : RefType → RefId → ℕ → ℤ → ℕ) where
  -- What can follow one another in the wallet: calls about any deposits that return, new deposits, and
  -- whatever leaves the deposits alone, such as payments, locks and calls that throw. The rejections of a
  -- `rejectExpiredPendingDeposits` that throws half-way are `rejects` steps.
  pub data Step (b : Bank) : Bank → Type 0 where
    confirms :
        (j admin now : ℕ) {n : Bank}
        → confirm_pending_deposit hash j admin now b ≡ done n
        → Step b n
    rejects :
        (j admin now : ℕ) (reason : Option Reason) {n : Bank}
        → reject_pending_deposit j admin reason now b ≡ done n
        → Step b n
    cancels : (user j now : ℕ) {n : Bank} → cancel_pending_deposit user j now b ≡ done n → Step b n
    marks : (j : ℕ) → Step b (mark_action_required j b)
    expires : (now : ℕ) {n : Bank} → reject_expired now b ≡ done n → Step b n
    creates : (d : PendingDeposit) → Step b (record b { deposits = b.deposits ++ d ∷ [] })
    elsewhere : {n : Bank} → n.deposits ≡ b.deposits → Step b n

  pub data Reach (b : Bank) : Bank → Type 0 where
    here : Reach b b
    next : {m n : Bank} → Reach b m → Step m n → Reach b n

  Step-IsRejected : (i : ℕ) {b n : Bank} → Step b n → IsRejected i b → IsRejected i n
  unfolding reject_expired
  Step-IsRejected i {b} {n} (confirms j admin now e) h =
      OnDone_elim (IsRejected i) (confirm_pending_deposit hash j admin now b)
        (confirm-IsRejected i hash j admin now b h) e
  Step-IsRejected i {b} {n} (rejects j admin now reason e) h =
      OnDone_elim (IsRejected i) (reject_pending_deposit j admin reason now b)
        (reject-IsRejected i j admin now reason b h) e
  Step-IsRejected i {b} {n} (cancels user j now e) h =
      OnDone_elim (IsRejected i) (cancel_pending_deposit user j now b)
        (cancel-IsRejected i user j now b h) e
  Step-IsRejected i {b} {n} (marks j) h = mark-IsRejected i j b h
  Step-IsRejected i {b} {n} (expires now e) h =
      OnDone_elim (IsRejected i) (reject_expired now b) (reject_each-IsRejected i now _ b h) e
  Step-IsRejected i {b} {n} (creates d) h = append_in i d b.deposits h
  Step-IsRejected i {b} {n} (elsewhere same) h = rw same h

  Reach-IsRejected : (i : ℕ) {b n : Bank} → Reach b n → IsRejected i b → IsRejected i n
  Reach-IsRejected i here h = h
  Reach-IsRejected i (next r s) h = Step-IsRejected i s (Reach-IsRejected i r h)

  reject_pending-IsRejected :
      (i admin now : ℕ) (reason : Option Reason) (b : Bank) {d : PendingDeposit}
      → find_deposit i b ≡ some d
      → is_pending d.status ≡ true
      → OnDone (IsRejected i) (reject_pending_deposit i admin reason now b)
  unfolding reject_pending_deposit save_deposit find_deposit
  reject_pending-IsRejected i admin now reason b {d} found waiting =
      let own : (d.id == i) ≡ true = rw found at (found-id i b.deposits) in
      OnDone-if (IsRejected i) (includes i b.locks) (failed locked) _ (λ _. tt)
        λ _.
          rw found (rw waiting (saved_in i (as_rejected admin now reason d) d b.deposits found own))

  -- Both decisions on a rejected deposit throw if its lock is held, and change nothing if not.
  refuse_decided :
      (i again later : ℕ) (reason : Option Reason) (b : Bank)
      → IsRejected i b
      → (confirm_pending_deposit hash i again later b
          ≡ (if includes i b.locks then failed locked else done b))
        × (reject_pending_deposit i again reason later b
            ≡ (if includes i b.locks then failed locked else done b))
  unfolding confirm_pending_deposit reject_pending_deposit find_deposit
  refuse_decided i again later reason b h =
      let (d, found, status) = rejected_row i b.deposits h in
      let decided : is_pending d.status ≡ false = rw status refl in
      (rw found (rw decided refl), rw found (rw decided refl))

  -- A pending deposit that `rejectPendingDeposit` has rejected stays rejected and is never credited: whatever
  -- follows in the wallet, the deposit that is found is rejected, and `confirmPendingDeposit` and
  -- `rejectPendingDeposit` of it change nothing; they throw if its lock is held, and return if not. The calls
  -- do not interleave.
  pub reject_stands :
      (i admin now again later : ℕ) (reason other_reason : Option Reason) (b n m : Bank)
      {d : PendingDeposit}
      → find_deposit i b ≡ some d
      → is_pending d.status ≡ true
      → reject_pending_deposit i admin reason now b ≡ done n
      → Reach n m
      → ((e : PendingDeposit) × (find_deposit i m ≡ some e) × (e.status ≡ DepositStatus.rejected))
        × (confirm_pending_deposit hash i again later m
            ≡ (if includes i m.locks then failed locked else done m))
        × (reject_pending_deposit i again other_reason later m
            ≡ (if includes i m.locks then failed locked else done m))
  unfolding find_deposit
  reject_stands i admin now again later reason other_reason b n m found waiting done_so r =
      let rejected_then =
        OnDone_elim (IsRejected i) (reject_pending_deposit i admin reason now b)
          (reject_pending-IsRejected i admin now reason b found waiting) done_so in
      let rejected_now = Reach-IsRejected i r rejected_then in
      let (confirmed, refused) = refuse_decided i again later other_reason m rejected_now in
      (rejected_row i m.deposits rejected_now, confirmed, refused)
