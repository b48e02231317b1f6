-- ===== src/Wallet/Decided.antt =====
-- Proofs about deposits that have been decided on.
use pokerhub.Wallet.Record.{record_entries, find_account, find_named}
use pokerhub.Prelude.{
  ◌∷◌, [], ◌==◌, true, ℕ, find, refl, update_first, includes, false, inr, arith, inl, Bool-cases,
  ◌≡◌, none, some, if◌then◌else◌, Option, List,
}
use pokerhub.Wallet.Types.{
  AccountName, OnDone_elim, OnDone-if, OnDone, locked, RefId, OnDone-bind, plain, done, failed,
  any_result, RefType, Outcome,
}
use pokerhub.Wallet.Deposits.{
  reject_pending_deposit, confirm_pending_deposit, credit_deposit, as_confirmed, as_rejected,
}
use pokerhub.Wallet.Bank.{
  notice, find_deposit, Reason, set_ledger, Bank, save_deposit, PendingDeposit, deposit_rejected,
  is_pending,
}
use pokerhub.Prelude.Int.{ℤ}
use pokerhub.Prelude.All.{OptionAll}
use pokerhub.Wallet.Hand.{neg}

-- The deposit is not locked, and there is none of that identifier or it is decided.
abbrev pub IsDecided : ℕ → Bank → Type 0
IsDecided i b =
    (includes i b.locks ≡ false) × OptionAll (λ d. is_pending d.status ≡ false) (find_deposit i b)

-- The row that replaces the first one with its identifier is the one that is found.
decided_in :
    (i : ℕ) (e : PendingDeposit) (ds : List PendingDeposit)
    → (e.id == i) ≡ true
    → is_pending e.status ≡ false
    → OptionAll
        (λ (d : PendingDeposit). is_pending d.status ≡ false)
        (find (λ d. d.id == i) (update_first (λ d. d.id == e.id) (λ _. e) ds))
decided_in i e [] same h = tt
decided_in i e (d ∷ ds) same h =
    let rest = decided_in i e ds same h in
    elim (Bool-cases (d.id == e.id)) [
      | inl hit ↦ rw hit (rw same h)
      | inr miss ↦ let other : (d.id == i) ≡ false = ground arith in rw miss (rw other rest)
    ]

save_deposit-IsDecided :
    (i : ℕ) (e : PendingDeposit) (b : Bank)
    → includes i b.locks ≡ false
    → (e.id == i) ≡ true
    → is_pending e.status ≡ false
    → IsDecided i (save_deposit e b)
unfolding save_deposit find_deposit
save_deposit-IsDecided i e b free same h = (free, decided_in i e b.deposits same h)

pub found-id :
    (i : ℕ) (ds : List PendingDeposit)
    → OptionAll (λ (d : PendingDeposit). (d.id == i) ≡ true) (find (λ d. d.id == i) ds)
found-id i [] = tt
found-id i (d ∷ ds) = elim (Bool-cases (d.id == i)) [
  | inl hit ↦ rw hit hit
  | inr miss ↦ rw miss (found-id i ds)
]

-- The shape of both decisions: only a pending deposit is changed.
decides :
    (i : ℕ) (b : Bank) (f : PendingDeposit → Outcome Bank) (o : Option PendingDeposit)
    → includes i b.locks ≡ false
    → find_deposit i b ≡ o
    → OptionAll (λ d. (d.id == i) ≡ true) o
    → ((d : PendingDeposit) → (d.id == i) ≡ true → OnDone (IsDecided i) (f d))
    → OnDone
        (IsDecided i)
        (elim o [ none ↦ done b | some d ↦ if is_pending d.status then f d else done b ])
decides i b f none free e same step = (free, rw e tt)
decides i b f (some d) free e same step =
    OnDone-if (IsDecided i) (is_pending d.status) (f d) (done b) (λ _. step d same)
      λ settled. (free, rw e settled)

reject-IsDecided :
    (i admin now : ℕ) (reason : Option Reason) (b : Bank)
    → OnDone (IsDecided i) (reject_pending_deposit i admin reason now b)
unfolding reject_pending_deposit find_deposit
reject-IsDecided i admin now reason b =
    OnDone-if (IsDecided i) (includes i b.locks) (failed locked) _ (λ _. tt)
      λ free.
        decides i b
          (λ d.
            done
              (notice (save_deposit (as_rejected admin now reason d) b) (deposit_rejected i ∷ [])))
          (find_deposit i b) free refl (found-id i b.deposits)
          λ d same. save_deposit-IsDecided i (as_rejected admin now reason d) b free same refl

pub stays :
    (f : PendingDeposit → Outcome Bank) (b : Bank) (o : Option PendingDeposit)
    → OptionAll (λ d. is_pending d.status ≡ false) o
    → elim o [ none ↦ done b | some d ↦ if is_pending d.status then f d else done b ] ≡ done b
stays f b none h = refl
stays f b (some d) h = rw h refl

reject-stays :
    (i admin now : ℕ) (reason : Option Reason) (b : Bank)
    → IsDecided i b
    → reject_pending_deposit i admin reason now b ≡ done b
unfolding reject_pending_deposit
reject-stays i admin now reason b (free, h) = rw free (
    stays
      (λ d.
        done (notice (save_deposit (as_rejected admin now reason d) b) (deposit_rejected i ∷ [])))
      b (find_deposit i b) h)

module _ (hash : RefType → RefId → ℕ → ℤ → ℕ) where
  confirm-stays :
      (i admin now : ℕ) (b : Bank)
      → IsDecided i b
      → confirm_pending_deposit hash i admin now b ≡ done b
  unfolding confirm_pending_deposit
  confirm-stays i admin now b (free, h) =
      rw free (stays (λ d. credit_deposit hash admin now d b) b (find_deposit i b) h)

  credit_deposit-IsDecided :
      (i admin now : ℕ) (d : PendingDeposit) (b : Bank)
      → includes i b.locks ≡ false
      → (d.id == i) ≡ true
      → OnDone (IsDecided i) (credit_deposit hash admin now d b)
  unfolding credit_deposit find_deposit
  credit_deposit-IsDecided i admin now d b free same =
      OnDone-bind (λ _. Unit {0}) (IsDecided i) (find_account d.user_id d.currency b.ledger) _
        (any_result _)
        λ user _.
          OnDone-bind (λ _. Unit {0}) (IsDecided i)
            (find_named AccountName.house d.currency b.ledger) _ (any_result _)
            λ pool _.
              OnDone-bind (λ _. Unit {0}) (IsDecided i)
                (record_entries hash RefType.deposit (plain d.id)
                  (record { account = pool; amount = neg d.amount }
                    ∷ record { account = user; amount = d.amount }
                    ∷ [])
                  none b.ledger)
                _ (any_result _)
                λ after _.
                  save_deposit-IsDecided i (as_confirmed admin now d) (set_ledger b after) free same
                    refl

  confirm-IsDecided :
      (i admin now : ℕ) (b : Bank)
      → OnDone (IsDecided i) (confirm_pending_deposit hash i admin now b)
  unfolding confirm_pending_deposit find_deposit
  confirm-IsDecided i admin now b =
      OnDone-if (IsDecided i) (includes i b.locks) (failed locked) _ (λ _. tt)
        λ free.
          decides i b (λ d. credit_deposit hash admin now d b) (find_deposit i b) free refl
            (found-id i b.deposits) λ d same. credit_deposit-IsDecided i admin now d b free same

  -- When `confirmPendingDeposit` returns, the next call of it or of `rejectPendingDeposit` for the same
  -- deposit changes nothing, whoever makes it and when: a repetition does not credit the deposit again.
  pub confirm_once :
      (i admin now again later : ℕ) (reason : Option Reason) (b n : Bank)
      → confirm_pending_deposit hash i admin now b ≡ done n
      → (confirm_pending_deposit hash i again later n ≡ done n)
        × (reject_pending_deposit i again reason later n ≡ done n)
  confirm_once i admin now again later reason b n e =
      let decided =
        OnDone_elim (IsDecided i) (confirm_pending_deposit hash i admin now b)
          (confirm-IsDecided i admin now b) e in
      (confirm-stays i again later n decided, reject-stays i again later reason n decided)
