-- ===== src/Tests/Limits.antt =====
-- Requests of one player against the limits.
use pokerhub.Wallet.Keys.{
  request_again, duplicate_unlocks, opens, finishes, expires, at_once, Meanwhile,
}
use pokerhub.Wallet.Types.{
  Outcome, AccountName, RefType, RefId, approved, Account, done, other, failed,
}
use pokerhub.Wallet.Desk.{
  withdraw_body, open_request, finish_request, expire_slot, read_slot, Limits, request,
  kyc_required, Desk, Replied, running, duplicate, refused, granted, lock,
}
use pokerhub.Wallet.Payments.{confirm_3ds}
use pokerhub.Prelude.Int.{◌+ℤ◌, negsuc, ℤ, ◌≤ℤ◌, ◌-ℤ◌, pos}
use pokerhub.Wallet.Caps.{admitted-le, enforce_velocity-AreWithin, AreWithin, admitted}
use pokerhub.Wallet.Limits.{
  hourly_count, Velocity, enforce_velocity, Meter, CounterKey, daily_total, hourly_amount,
  read_counter,
}
use pokerhub.Prelude.{List, ◌≡◌, true, none, arith, refl, ◌∷◌, some, [], Bool, map, ℕ}
use pokerhub.Wallet.Bank.{pay_in, Bank, pay_out}

abbrev always : CounterKey → Bool
always _ = true

abbrev no_meter : Meter
no_meter = record { counters = []; alerts = [] }

abbrev strict : Velocity
strict = record { hour_count = some (pos 2); hour_amount = some (pos 50); day_count = none }

abbrev limits : Limits
limits = record {
  daily = some (pos 1000);
  velocity = record { hour_count = none; hour_amount = none; day_count = none };
}

enforce_velocity-AreWithin_example :
    AreWithin always strict pay_out 7 (enforce_velocity always strict pay_out 7 (pos 60) no_meter).0
unfolding read_counter
enforce_velocity-AreWithin_example =
    enforce_velocity-AreWithin always strict pay_out 7 (pos 60) no_meter
      (omega arith, omega arith, tt)

-- The amount of 60 passes the limit of 50 and is taken back, but the request stays counted.
amount_taken_back :
    (enforce_velocity always strict pay_out 7 (pos 60) no_meter).0.counters
    ≡ (hourly_count pay_out 7, pos 1) ∷ (hourly_amount pay_out 7, pos 0) ∷ []
unfolding enforce_velocity ◌+ℤ◌ ◌-ℤ◌
amount_taken_back = refl

abbrev day_amounts : List ℤ
day_amounts = pos 400 ∷ pos 700 ∷ pos 600 ∷ pos 1 ∷ []

admitted_sum : (admitted (pos 1000) pay_in 3 7 day_amounts no_meter).0 ≡ pos 1000
unfolding admitted ◌+ℤ◌ ◌-ℤ◌
admitted_sum = refl

admitted-le_example :
    (read_counter (daily_total pay_in 7 3) []
        +ℤ (admitted (pos 1000) pay_in 3 7 day_amounts no_meter).0
      ≤ℤ pos 1000)
    × (read_counter
          (daily_total pay_in 7 3)
          (admitted (pos 1000) pay_in 3 7 day_amounts no_meter).1.counters
        ≡ read_counter (daily_total pay_in 7 3) []
          +ℤ (admitted (pos 1000) pay_in 3 7 day_amounts no_meter).0)
unfolding read_counter
admitted-le_example = admitted-le (pos 1000) pay_in 3 7 day_amounts no_meter (omega arith)

abbrev row : ℕ → AccountName → ℤ → Account
row i name balance = record {
  id = i;
  name = name;
  currency = 0;
  balance = balance;
  credit_balance = pos 0;
  kyc_verified = true;
}

abbrev desk : Desk
desk = record {
  bank = record {
    ledger = record {
      accounts = row 7 other (pos 100) ∷ row 1 AccountName.house (pos 0) ∷ [];
      journals = [];
      settlements = [];
      events = [];
    };
    deposits = [];
    disbursements = [];
    webhooks = [];
    challenges = [];
    locks = [];
    queued = [];
    notices = [];
  };
  meter = no_meter;
  chargebacks = record { by_account = []; by_device = [] };
  slots = [];
}

abbrev body : Desk → Replied
body = withdraw_body always limits 3 true true 7 (pos 500) 11 12 0 21

-- A withdrawal of 500 from a balance of 100, and its approval.
withdraw_granted : (body desk).1 ≡ granted 21
unfolding withdraw_body ◌+ℤ◌ ◌-ℤ◌
withdraw_granted = refl

abbrev bank_of : Outcome Bank → Bank
bank_of (done b) = b
bank_of (failed e) = desk.bank

abbrev digest : RefType → RefId → ℕ → ℤ → ℕ
digest t r i a = i

overdrawn :
    map
      (λ a. a.balance)
      (bank_of (confirm_3ds digest 77 21 approved 6 61 62 (body desk).0.bank)).ledger.accounts
    ≡ negsuc 399 ∷ pos 500 ∷ []
unfolding confirm_3ds withdraw_body ◌+ℤ◌ ◌-ℤ◌
overdrawn = refl

abbrev busy : Desk
busy = record desk { slots = (5, lock) ∷ [] }

duplicate_unlocks_example :
    ((open_request 5 busy).1 ≡ duplicate) × ((open_request 5 (open_request 5 busy).0).1 ≡ running)
unfolding read_slot
duplicate_unlocks_example = duplicate_unlocks 5 busy refl

abbrev answered_desk : Desk
answered_desk = (request (some 5) body desk).0

-- A request under key 6 starts, a second one under key 5 comes, the first ends, and key 4 expires.
abbrev next_desk : Desk
next_desk =
    expire_slot 4
      (finish_request 6
        ((open_request 5 (open_request 6 answered_desk).0).0, refused kyc_required)).0

in_between : Meanwhile 5 answered_desk next_desk
in_between = expires 4 refl (finishes 6 (refused kyc_required) refl (opens 5 (opens 6 at_once)))

request_again_example :
    (request (some 5) (λ d. (d, refused kyc_required)) next_desk ≡ (next_desk, granted 21))
    × ((open_request 5 (expire_slot 5 next_desk)).1 ≡ running)
unfolding request withdraw_body ◌+ℤ◌ ◌-ℤ◌
request_again_example =
    request_again 5 body (λ d. (d, refused kyc_required)) desk answered_desk next_desk 21 refl
      in_between
