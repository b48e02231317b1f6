-- ===== src/Wallet/Repeats.antt =====
-- Proofs about webhooks that the payment provider delivers more than once.
use pokerhub.Wallet.Payments.{
  settle_challenge, transfer, lookup_challenge, delete_challenge, confirm_3ds, settle_with,
}
use pokerhub.Prelude.{true, arith, refl, includes, List, [], some, none, ◌≡◌, ◌∷◌, ◌++◌, ℕ, Option}
use pokerhub.Wallet.Types.{
  OnDone-if, OnDone_elim, done, OnDone, plain, AccountName, chargeback, Account, risky, OnDone-bind,
  RefId, any_result, ProviderStatus, approved, RefType,
}
use pokerhub.Wallet.Bank.{pay_out, Challenge, Bank, chargeback_seen, notice, pay_in, PaymentOp}
use pokerhub.Wallet.Record.{find_named, find_account}
use pokerhub.Prelude.Int.{ℤ}

-- The event has been seen.
abbrev pub IsSeen : ℕ → Bank → Type 0
IsSeen event b = includes event b.webhooks ≡ true

includes-snoc : (c : ℕ) (xs : List ℕ) → includes c (xs ++ c ∷ []) ≡ true
includes-snoc c [] = ground arith
includes-snoc c (x ∷ xs) = ground (arith, includes-snoc c xs)

module _ (hash : RefType → RefId → ℕ → ℤ → ℕ) (event : ℕ) where
  settle_with-IsSeen :
      (txn ref new_id new_key : ℕ) (c : Challenge) (b : Bank) (user house_account : Account)
      (op : PaymentOp) (status : ProviderStatus)
      → IsSeen event b
      → OnDone
          (IsSeen event)
          (settle_with hash txn ref new_id new_key c b user house_account op status)
  unfolding settle_with
  settle_with-IsSeen txn ref new_id new_key c b user house_account pay_in approved h =
      OnDone-bind (λ _. Unit {0}) (IsSeen event)
        (transfer hash RefType.deposit (plain ref) (some (txn, approved)) house_account user
          c.amount b.ledger)
        _ (any_result _) λ after _. h
  settle_with-IsSeen txn ref new_id new_key c b user house_account pay_in risky h = h
  settle_with-IsSeen txn ref new_id new_key c b user house_account pay_in chargeback h =
      warned c.device
    where
      warned :
          (o : Option ℕ)
          → OnDone (IsSeen event) (elim o [
            | none ↦ done b
            | some device ↦ done (notice b (chargeback_seen c.account_id device ∷ []))
          ])
      warned none = h
      warned (some device) = h
  settle_with-IsSeen txn ref new_id new_key c b user house_account pay_out approved h =
      OnDone-bind (λ _. Unit {0}) (IsSeen event)
        (transfer hash RefType.withdraw (plain ref) (some (txn, approved)) user house_account
          c.amount b.ledger)
        _ (any_result _) λ after _. h
  settle_with-IsSeen txn ref new_id new_key c b user house_account pay_out risky h = h
  settle_with-IsSeen txn ref new_id new_key c b user house_account pay_out chargeback h = h

  settle_challenge-IsSeen :
      (txn : ℕ) (status : ProviderStatus) (ref new_id new_key : ℕ) (c : Challenge) (b : Bank)
      → IsSeen event b
      → OnDone (IsSeen event) (settle_challenge hash txn status ref new_id new_key c b)
  unfolding settle_challenge
  settle_challenge-IsSeen txn status ref new_id new_key c b h =
      OnDone-bind (λ _. Unit {0}) (IsSeen event) (find_account c.account_id c.currency b.ledger) _
        (any_result _)
        λ user _.
          OnDone-bind (λ _. Unit {0}) (IsSeen event)
            (find_named AccountName.house c.currency b.ledger) _ (any_result _)
            λ house_account _.
              settle_with-IsSeen txn ref new_id new_key c b user house_account c.op status h

  confirm_3ds-IsSeen :
      (txn : ℕ) (status : ProviderStatus) (ref new_id new_key : ℕ) (b : Bank)
      → OnDone (IsSeen event) (confirm_3ds hash event txn status ref new_id new_key b)
  unfolding confirm_3ds
  confirm_3ds-IsSeen txn status ref new_id new_key b =
      OnDone-if (IsSeen event) (includes event b.webhooks) (done b) _ (λ old. old)
        λ _. settled (lookup_challenge txn b.challenges)
    where
      settled :
          (o : Option Challenge)
          → OnDone (IsSeen event) (elim o [
            | none ↦ done (record b { webhooks = b.webhooks ++ event ∷ [] })
            | some c ↦ settle_challenge hash txn status ref new_id new_key c (record b {
              webhooks = b.webhooks ++ event ∷ [];
              challenges = delete_challenge txn b.challenges;
            })
          ])
      settled none = includes-snoc event b.webhooks
      settled (some c) =
          settle_challenge-IsSeen txn status ref new_id new_key c _ (includes-snoc event b.webhooks)

  seen_done :
      (txn : ℕ) (status : ProviderStatus) (ref new_id new_key : ℕ) (b : Bank)
      → IsSeen event b
      → confirm_3ds hash event txn status ref new_id new_key b ≡ done b
  unfolding confirm_3ds
  seen_done txn status ref new_id new_key b h = rw h refl

  -- Once `confirm3DS` has returned for an event, a second delivery of the event changes nothing, whatever
  -- transaction and status it carries; the key of the event is taken not to have expired.
  pub confirm_3ds_once :
      (txn again ref new_id new_key ref_again id_again key_again : ℕ)
      (status later : ProviderStatus) (b n : Bank)
      → confirm_3ds hash event txn status ref new_id new_key b ≡ done n
      → confirm_3ds hash event again later ref_again id_again key_again n ≡ done n
  confirm_3ds_once txn again ref new_id new_key ref_again id_again key_again status later b n e =
      seen_done again later ref_again id_again key_again n (
        OnDone_elim (IsSeen event) (confirm_3ds hash event txn status ref new_id new_key b)
          (confirm_3ds-IsSeen txn status ref new_id new_key b) e)
