-- ===== src/Wallet/Desk.antt =====
-- Requests of players to `WalletService`: `withdraw`, `deposit` and `initiateBankTransfer`, with the
-- idempotency keys that they share. What other services answer is an argument: whether the country is
-- allowed, whether the player is verified, the identifiers that are drawn. A request with a key is two
-- steps, so that others can come between: `open_request`, and `finish_request` with what its body did. No
-- time passes by itself: that a key expires is a step of its own, `expire_slot`.
use pokerhub.Prelude.Int.{ltb_ℤ, ℤ, pos, pos_part}
use pokerhub.Wallet.Bank.{PendingDeposit, DepositStatus, Challenge, pay_in, Bank, pay_out}
use pokerhub.Prelude.{
  Bool, some, ℕ, false, ◌==◌, List, ◌++◌, [], Option, none, if◌then◌else◌, filter, ◌∷◌, not, ◌+◌,
}
use pokerhub.Wallet.Limits.{
  enforce_daily, CounterKey, Velocity, enforce_velocity, Meter, set_counters, deposit_ref,
  Chargebacks, read_counter, Checked, check_velocity, LimitError, add_to, check_chargebacks,
}
use pokerhub.Wallet.Types.{failed, Account, done}
use pokerhub.Wallet.Payments.{delete_challenge}
use pokerhub.Wallet.Record.{find_account}
use pokerhub.Wallet.Deposits.{mark_action_required}

pub data RequestError : Type 0 where
  country_refused no_account kyc_required aml_exceeded chargebacks_exceeded not_configured
        in_progress :
      RequestError
  limited : LimitError → RequestError

-- What a key holds: the lock of a request that runs, or the answer of one that has ended.
pub data Slot : Type 0 where
  lock : Slot
  answer : ℕ → Slot

pub record Desk : Type 0 where
  pub bank : Bank
  pub meter : Meter
  pub chargebacks : Chargebacks
  pub slots : List (ℕ × Slot)

-- The state after a request's body, and its answer or error. A state is kept when an error is thrown.
pub data Reply : Type 0 where
  granted : ℕ → Reply
  refused : RequestError → Reply

abbrev pub Replied : Type 0
Replied = Desk × Reply

abbrev pub set_meter : Desk → Meter → Desk
set_meter d m = record d { meter = m }

-- A check of the limits, and what follows if it passes.
abbrev pub with_check : Desk → Checked → (Desk → Replied) → Replied
with_check d (m, none) rest = rest (set_meter d m)
with_check d (m, some e) rest = (set_meter d m, refused (limited e))

abbrev pub with_account : ℕ → ℕ → Desk → (Account → Replied) → Replied
with_account i currency d rest = elim (find_account i currency d.bank.ledger) [
  | done user ↦ rest user
  | failed _ ↦ (d, refused no_account)
]

-- `redis.set(challengeKey(challenge.id), ...)`
abbrev pub store_challenge : ℕ → Challenge → Desk → Desk
store_challenge i c d = record d {
  bank = record d.bank { challenges = (i, c) ∷ delete_challenge i d.bank.challenges };
}

-- The limits that the environment sets for one operation.
pub record Limits : Type 0 where
  pub daily : Option ℤ
  pub velocity : Velocity

module _ (expires : CounterKey → Bool) (limits : Limits) (day : ℕ) where
  -- The body of `withdraw`.
  unfoldable pub withdraw_body : Bool → Bool → ℕ → ℤ → ℕ → ℕ → ℕ → ℕ → Desk → Replied
  unfolding find_account check_velocity enforce_velocity enforce_daily
  withdraw_body allowed verified account amount device ip currency challenge d =
      if not allowed
      then (d, refused country_refused)
      else with_account account currency d λ user.
        if not verified
        then (d, refused kyc_required)
        else if ltb_ℤ (pos 100000) amount
        then (d, refused aml_exceeded)
        else with_check d (check_velocity pay_out device ip d.meter) λ d1.
          with_check d1 (enforce_velocity expires limits.velocity pay_out account amount d1.meter)
            λ d2.
              with_check d2 (enforce_daily limits.daily pay_out day account amount d2.meter) λ d3. (
                store_challenge challenge
                    (record {
                      op = pay_out;
                      account_id = account;
                      amount = amount;
                      currency = currency;
                      device = none;
                    })
                    d3,
                granted challenge,
              )

  -- The body of `deposit`; the chargeback limits and the time before which chargebacks are forgotten come
  -- first.
  unfoldable pub deposit_body : ℕ → ℕ → ℕ → Bool → ℕ → ℤ → ℕ → ℕ → ℕ → ℕ → Desk → Replied
  unfolding find_account check_velocity enforce_velocity enforce_daily check_chargebacks
  deposit_body account_limit device_limit cutoff allowed account amount device ip currency challenge
        d =
      if not allowed
      then (d, refused country_refused)
      else with_check d (check_velocity pay_in device ip d.meter) λ d1.
        with_check d1 (enforce_velocity expires limits.velocity pay_in account amount d1.meter)
          λ d2. with_account account currency d2 λ user.
            if not user.kyc_verified
            then (d2, refused kyc_required)
            else with_check d2 (enforce_daily limits.daily pay_in day account amount d2.meter) λ d3.
              let (left, flagged) =
                check_chargebacks account_limit device_limit cutoff account device d3.chargebacks in
              let d4 = record d3 { chargebacks = left } in
              if flagged then (d4, refused chargebacks_exceeded) else (
                store_challenge challenge
                    (record {
                      op = pay_in;
                      account_id = account;
                      amount = amount;
                      currency = currency;
                      device = some device;
                    })
                    d4,
                granted challenge,
              )

  abbrev pub new_deposit : ℕ → ℕ → ℤ → ℕ → ℕ → PendingDeposit
  new_deposit i account amount currency now = record {
    id = i;
    user_id = account;
    amount = amount;
    currency = currency;
    status = DepositStatus.pending;
    action_required = false;
    expires_at = now + 86400000;
    confirmed_by = none;
    confirmed_at = none;
    rejected_by = none;
    rejected_at = none;
    rejection_reason = none;
  }

  -- The body of `initiateBankTransfer`; the reference is the counter's value. The follow-up job is done at
  -- once if there is no queue.
  unfoldable pub transfer_body : Bool → Bool → Bool → ℕ → ℤ → ℕ → ℕ → ℕ → ℕ → ℕ → Desk → Replied
  unfolding find_account check_velocity enforce_velocity enforce_daily add_to read_counter
      mark_action_required
  transfer_body configured queued verified account amount device ip currency new_id now d =
      if not configured
      then (d, refused not_configured)
      else with_check d (check_velocity pay_in device ip d.meter) λ d1.
        with_check d1 (enforce_velocity expires limits.velocity pay_in account amount d1.meter)
          λ d2. with_account account currency d2 λ user.
            if not verified
            then (d2, refused kyc_required)
            else with_check d2 (enforce_daily limits.daily pay_in day account amount d2.meter) λ d3.
              let counters = add_to deposit_ref (pos 1) d3.meter.counters in
              let numbered = set_meter d3 (set_counters d3.meter counters) in
              let saved = record numbered.bank {
                deposits =
                    numbered.bank.deposits ++ new_deposit new_id account amount currency now ∷ [];
              } in
              (
                record numbered {
                  bank = if queued then saved else mark_action_required new_id saved;
                },
                granted (pos_part (read_counter deposit_ref counters)),
              )

unfoldable pub read_slot : ℕ → List (ℕ × Slot) → Option Slot
read_slot k [] = none
read_slot k ((j, s) ∷ rest) = if j == k then some s else read_slot k rest

abbrev pub clear_slot : ℕ → List (ℕ × Slot) → List (ℕ × Slot)
clear_slot k = filter (λ e. not (e.0 == k))

abbrev pub set_slots : Desk → List (ℕ × Slot) → Desk
set_slots d slots = record d { slots = slots }

-- `ex: 600`: Redis deletes a key 600 seconds after it was last set.
abbrev pub expire_slot : ℕ → Desk → Desk
expire_slot key d = set_slots d (clear_slot key d.slots)

-- How a request with a key starts: with the answer that is stored, with an error, or by running.
pub data Opened : Type 0 where
  answered : ℕ → Opened
  duplicate running : Opened

-- The statements before the body. The error of a duplicate is thrown inside the `try`, whose handler
-- deletes the key.
unfoldable pub open_request : ℕ → Desk → Desk × Opened
unfolding read_slot
open_request key d = elim (read_slot key d.slots) [
  | none ↦ (set_slots d ((key, lock) ∷ d.slots), running)
  | some s ↦ elim s [
    | answer r ↦ (d, answered r)
    | lock ↦ (set_slots d (clear_slot key d.slots), duplicate)
  ]
]

-- The statements after the body: its answer is stored, or the key is deleted.
unfoldable pub finish_request : ℕ → Replied → Replied
finish_request key (d, granted r) =
    (set_slots d ((key, answer r) ∷ clear_slot key d.slots), granted r)
finish_request key (d, refused e) = (set_slots d (clear_slot key d.slots), refused e)

-- What follows `open_request`.
unfoldable pub resumed : ℕ → (Desk → Replied) → Desk × Opened → Replied
unfolding finish_request
resumed key body (d, answered r) = (d, granted r)
resumed key body (d, duplicate) = (d, refused in_progress)
resumed key body (d, running) = finish_request key (body d)

-- A whole request with nothing between its steps.
unfoldable pub request : Option ℕ → (Desk → Replied) → Desk → Replied
unfolding open_request resumed
request none body d = body d
request (some key) body d = resumed key body (open_request key d)
