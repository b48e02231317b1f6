-- ===== src/Wallet/Limits.antt =====
-- The limits of `WalletService`: `checkVelocity`, `enforceVelocity` and `enforceDailyLimit`, and
-- `ChargebackMonitor`. Redis counters are rows of a list; a missing counter reads 0, as a key that has
-- expired does. `expires` says for which counters `expire` reports success. A limit that is not set is
-- `none`.
use pokerhub.Prelude.{
  ℕ, ◌||◌, none, length, not, Bool, [], List, if◌then◌else◌, filter, ◌==◌, ◌∷◌, leb, some, ◌&&◌,
  false, Option, true, ◌++◌,
}
use pokerhub.Prelude.Int.{eqb_ℤ, ℤ, ◌+ℤ◌, ltb_ℤ, pos}
use pokerhub.Wallet.Hand.{neg}
use pokerhub.Wallet.Bank.{PaymentOp, pay_out, pay_in}

-- The keys of the counters; a daily total's key holds the day.
pub data CounterKey : Type 0 where
  ip_velocity device_velocity hourly_count hourly_amount daily_count : PaymentOp → ℕ → CounterKey
  daily_total : PaymentOp → ℕ → ℕ → CounterKey
  deposit_ref : CounterKey

abbrev pub same_op : PaymentOp → PaymentOp → Bool
same_op pay_in pay_in = true
same_op pay_out pay_out = true
same_op _ _ = false

abbrev pub same_key : CounterKey → CounterKey → Bool
same_key (ip_velocity o i) (ip_velocity p j) = same_op o p && i == j
same_key (device_velocity o i) (device_velocity p j) = same_op o p && i == j
same_key (hourly_count o i) (hourly_count p j) = same_op o p && i == j
same_key (hourly_amount o i) (hourly_amount p j) = same_op o p && i == j
same_key (daily_count o i) (daily_count p j) = same_op o p && i == j
same_key (daily_total o i d) (daily_total p j e) = same_op o p && (i == j && d == e)
same_key deposit_ref deposit_ref = true
same_key _ _ = false

abbrev pub Counters : Type 0
Counters = List (CounterKey × ℤ)

unfoldable pub read_counter : CounterKey → Counters → ℤ
read_counter k [] = pos 0
read_counter k ((j, n) ∷ c) = if same_key j k then n else read_counter k c

-- `incrby(key, amount)`; `decrby` is the same with the amount negated.
unfoldable pub add_to : CounterKey → ℤ → Counters → Counters
add_to k amount [] = (k, amount) ∷ []
add_to k amount ((j, n) ∷ c) =
    if same_key j k then (j, n +ℤ amount) ∷ c else (j, n) ∷ add_to k amount c

pub data LimitError : Type 0 where
  rate_limited expiry_failed velocity_exceeded daily_exceeded : LimitError

-- `antiCheat.flag` and `wallet.velocity.limit`
pub data Alert : Type 0 where
  over_daily : PaymentOp → ℕ → ℤ → Alert
  over_velocity : CounterKey → ℤ → Alert

pub record Meter : Type 0 where
  pub counters : Counters
  pub alerts : List Alert

-- The state after a check, and the error that it throws.
abbrev pub Checked : Type 0
Checked = Meter × Option LimitError

abbrev pub then_check : Checked → (Meter → Checked) → Checked
then_check (m, none) next_check = next_check m
then_check (m, some e) next_check = (m, some e)

abbrev pub set_counters : Meter → Counters → Meter
set_counters m c = record m { counters = c }

abbrev pub exceeds : ℤ → ℤ → Bool
exceeds n limit = ltb_ℤ limit n

-- `checkVelocity(op, deviceId, ip)`; what `expire` reports is not read here.
unfoldable pub check_velocity : PaymentOp → ℕ → ℕ → Meter → Checked
unfolding add_to read_counter
check_velocity op device ip m =
    let c =
      add_to (device_velocity op device) (pos 1) (add_to (ip_velocity op ip) (pos 1) m.counters) in
    (
      set_counters m c,
      if exceeds (read_counter (ip_velocity op ip) c) (pos 3)
            || exceeds (read_counter (device_velocity op device) c) (pos 3)
          then some rate_limited
          else none,
    )

-- `enforceDailyLimit(op, accountId, amount, currency)` on a day; what `expire` reports is not read here.
unfoldable pub enforce_daily : Option ℤ → PaymentOp → ℕ → ℕ → ℤ → Meter → Checked
unfolding add_to read_counter
enforce_daily none op day account amount m =
    (set_counters m (add_to (daily_total op account day) amount m.counters), none)
enforce_daily (some limit) op day account amount m =
    let key = daily_total op account day in
    let added = add_to key amount m.counters in
    let total = read_counter key added in
    if exceeds total limit
    then (
      record {
        counters = add_to key (neg amount) added;
        alerts = m.alerts ++ over_daily op account total ∷ [];
      },
      some daily_exceeded,
    )
    else (set_counters m added, none)

-- One of the three blocks of `enforceVelocity`.
unfoldable pub enforce_window : (CounterKey → Bool) → CounterKey → ℤ → Option ℤ → Meter → Checked
unfolding add_to read_counter
enforce_window expires key amount none m = (m, none)
enforce_window expires key amount (some limit) m =
    let added = add_to key amount m.counters in
    let total = read_counter key added in
    let undone = add_to key (neg amount) added in
    if eqb_ℤ total amount && not (expires key)
    then (set_counters m undone, some expiry_failed)
    else if exceeds total limit
    then (
      record { counters = undone; alerts = m.alerts ++ over_velocity key total ∷ [] },
      some velocity_exceeded,
    )
    else (set_counters m added, none)

-- The three environment variables of an operation.
pub record Velocity : Type 0 where
  pub hour_count : Option ℤ
  pub hour_amount : Option ℤ
  pub day_count : Option ℤ

-- `enforceVelocity(op, accountId, amount)`
unfoldable pub enforce_velocity :
    (CounterKey → Bool) → Velocity → PaymentOp → ℕ → ℤ → Meter → Checked
unfolding enforce_window
enforce_velocity expires limits op account amount m =
    then_check (enforce_window expires (hourly_count op account) (pos 1) limits.hour_count m) λ m1.
      then_check (enforce_window expires (hourly_amount op account) amount limits.hour_amount m1)
        λ m2. enforce_window expires (daily_count op account) (pos 1) limits.day_count m2

-- `ChargebackMonitor`: its sorted sets for accounts and for devices, as times with the keys.
pub record Chargebacks : Type 0 where
  pub by_account : List (ℕ × ℕ)
  pub by_device : List (ℕ × ℕ)

-- `record(accountId, deviceId)`
abbrev pub record_chargeback : ℕ → ℕ → ℕ → Chargebacks → Chargebacks
record_chargeback account device now cb = record {
  by_account = cb.by_account ++ (account, now) ∷ [];
  by_device = cb.by_device ++ (device, now) ∷ [];
}

-- `zremrangebyscore(key, 0, cutoff)`
unfoldable pub forget : ℕ → ℕ → List (ℕ × ℕ) → List (ℕ × ℕ)
forget key cutoff = filter (λ (e : ℕ × ℕ). not (e.0 == key && leb e.1 cutoff))

-- `zcard(key)`
unfoldable pub card : ℕ → List (ℕ × ℕ) → ℕ
card key es = length (filter (λ (e : ℕ × ℕ). e.0 == key) es)

-- `check(accountId, deviceId)`: what is left, and whether it is flagged.
unfoldable pub check_chargebacks : ℕ → ℕ → ℕ → ℕ → ℕ → Chargebacks → Chargebacks × Bool
unfolding forget card
check_chargebacks account_limit device_limit cutoff account device cb =
    let accounts = forget account cutoff cb.by_account in
    let devices = forget device cutoff cb.by_device in
    (
      record { by_account = accounts; by_device = devices },
      leb account_limit (card account accounts) || leb device_limit (card device devices),
    )
