-- ===== src/Wallet/Passed.antt =====
-- Proofs about checks that pass: what they have counted.
use pokerhub.Prelude.{
  Option, false, none, ◌≡◌, Bool-cases, ◌∙◌, inl, Bool, refl, ℕ, some, ◌&&◌, not, inr, ap,
}
use pokerhub.Wallet.Limits.{
  same_key, add_to, exceeds, CounterKey, read_counter, then_check, enforce_daily, Checked,
  enforce_window, Meter, daily_total, LimitError, set_counters, check_velocity, ip_velocity,
  device_velocity,
}
use pokerhub.Prelude.Int.{eqb_ℤ, pos, ℤ, ◌≤ℤ◌, ◌+ℤ◌}
use pokerhub.Wallet.Bounds.{read-add_to}
use pokerhub.Wallet.Caps.{read-add_to_self, le_of_ltb_ℤ}
use pokerhub.Wallet.Bank.{PaymentOp}

-- The counter has grown by the amount from the first meter to the second, and is within its limit, if it
-- has one.
abbrev pub IsCounted : CounterKey → ℤ → Option ℤ → Meter → Meter → Type 0
IsCounted key amount none m n = Unit
IsCounted key amount (some limit) m n =
    (read_counter key n.counters ≡ read_counter key m.counters +ℤ amount)
    × (read_counter key n.counters ≤ℤ limit)

-- The two meters agree on a counter.
abbrev pub IsKept : CounterKey → Meter → Meter → Type 0
IsKept key m n = read_counter key n.counters ≡ read_counter key m.counters

-- What holds of one check holds of a sequence of checks, the others of which keep the counter.
pub IsCounted-kept :
    (key : CounterKey) (amount : ℤ) (limit : Option ℤ) (m a b n : Meter)
    → IsKept key m a
    → IsKept key b n
    → IsCounted key amount limit a b
    → IsCounted key amount limit m n
IsCounted-kept key amount none m a b n before after h = tt
IsCounted-kept key amount (some limit) m a b n before after (sum, small) =
    (after ∙ sum ∙ ap (λ k. k +ℤ amount) before, rw after small)

some_ne_none : {A : Type 0} (e : LimitError) → some e ≡ none → A
some_ne_none e h = absurd (cc)

-- Both checks of a sequence that passes pass.
pub then_check-passes :
    (r : Checked) (f : Meter → Checked)
    → (then_check r f).1 ≡ none
    → (r.1 ≡ none) × ((f r.0).1 ≡ none) × (then_check r f ≡ f r.0)
then_check-passes (m, none) f h = (refl, h, refl)
then_check-passes (m, some e) f h = some_ne_none e h

module _ (expires : CounterKey → Bool) where
  pub enforce_window_passes :
      (key : CounterKey) (amount : ℤ) (limit : Option ℤ) (m : Meter)
      → (enforce_window expires key amount limit m).1 ≡ none
      → IsCounted key amount limit m (enforce_window expires key amount limit m).0
  unfolding enforce_window
  enforce_window_passes key amount none m h = tt
  enforce_window_passes key amount (some limit) m h =
      let added = add_to key amount m.counters in
      let total = read_counter key added in
      elim (Bool-cases (eqb_ℤ total amount && not (expires key))) [
        | inl failed_expiry ↦ some_ne_none _ (rw failed_expiry at h)
        | inr live ↦ elim (Bool-cases (exceeds total limit)) [
          | inl over ↦ let g = rw live at h in some_ne_none _ (rw over at g)
          | inr under ↦
              rw live
                (rw under (read-add_to_self key amount m.counters, le_of_ltb_ℤ total limit under))
        ]
      ]

-- Adding to other counters keeps a counter.
add_to-IsKept :
    (j k : CounterKey) (amount : ℤ) (m : Meter)
    → same_key k j ≡ false
    → IsKept j m (set_counters m (add_to k amount m.counters))
add_to-IsKept j k amount m apart = read-add_to j k amount m.counters ∙ rw apart refl

module _ (op : PaymentOp) (device ip : ℕ) where
  pub check_velocity-IsKept :
      (j : CounterKey) (m : Meter)
      → same_key (ip_velocity op ip) j ≡ false
      → same_key (device_velocity op device) j ≡ false
      → IsKept j m (check_velocity op device ip m).0
  unfolding check_velocity
  check_velocity-IsKept j m not_ip not_device =
      let first = set_counters m (add_to (ip_velocity op ip) (pos 1) m.counters) in
      add_to-IsKept j (device_velocity op device) (pos 1) first not_device
      ∙ add_to-IsKept j (ip_velocity op ip) (pos 1) m not_ip

  -- Both rates have grown by one and are at most three.
  pub check_velocity_passes :
      (m : Meter)
      → (check_velocity op device ip m).1 ≡ none
      → IsCounted (ip_velocity op ip) (pos 1) (some (pos 3)) m (check_velocity op device ip m).0
        × IsCounted
            (device_velocity op device)
            (pos 1)
            (some (pos 3))
            m
            (check_velocity op device ip m).0
  unfolding check_velocity
  check_velocity_passes m h =
      let first = add_to (ip_velocity op ip) (pos 1) m.counters in
      let both = add_to (device_velocity op device) (pos 1) first in
      let by_ip = read_counter (ip_velocity op ip) both in
      let by_device = read_counter (device_velocity op device) both in
      elim (Bool-cases (exceeds by_ip (pos 3))) [
        | inl often ↦ some_ne_none _ (rw often at h)
        | inr seldom ↦ elim (Bool-cases (exceeds by_device (pos 3))) [
          | inl much ↦ let g = rw seldom at h in some_ne_none _ (rw much at g)
          | inr few ↦ (
            (
              add_to-IsKept (ip_velocity op ip) (device_velocity op device) (pos 1)
                    (set_counters m first) refl
                  ∙ read-add_to_self (ip_velocity op ip) (pos 1) m.counters,
              le_of_ltb_ℤ by_ip (pos 3) seldom,
            ),
            (
              read-add_to_self (device_velocity op device) (pos 1) first
                  ∙ ap (λ k. k +ℤ pos 1)
                      (add_to-IsKept (device_velocity op device) (ip_velocity op ip) (pos 1) m
                        refl),
              le_of_ltb_ℤ by_device (pos 3) few,
            ),
          )
        ]
      ]

module _ (op : PaymentOp) (day account : ℕ) (amount : ℤ) where
  -- The daily total of a request that passes.
  pub enforce_daily_passes :
      (limit : Option ℤ) (m : Meter)
      → (enforce_daily limit op day account amount m).1 ≡ none
      → IsCounted
          (daily_total op account day)
          amount
          limit
          m
          (enforce_daily limit op day account amount m).0
  unfolding enforce_daily
  enforce_daily_passes none m h = tt
  enforce_daily_passes (some limit) m h =
      let key = daily_total op account day in
      let total = read_counter key (add_to key amount m.counters) in
      elim (Bool-cases (exceeds total limit)) [
        | inl over ↦ some_ne_none _ (rw over at h)
        | inr under ↦
            rw under (read-add_to_self key amount m.counters, le_of_ltb_ℤ total limit under)
      ]

  pub enforce_daily-IsKept :
      (limit : Option ℤ) (j : CounterKey) (m : Meter)
      → same_key (daily_total op account day) j ≡ false
      → (enforce_daily limit op day account amount m).1 ≡ none
      → IsKept j m (enforce_daily limit op day account amount m).0
  unfolding enforce_daily
  enforce_daily-IsKept none j m apart h =
      add_to-IsKept j (daily_total op account day) amount m apart
  enforce_daily-IsKept (some limit) j m apart h =
      let key = daily_total op account day in
      let total = read_counter key (add_to key amount m.counters) in
      elim (Bool-cases (exceeds total limit)) [
        | inl over ↦ some_ne_none _ (rw over at h)
        | inr under ↦ rw under (add_to-IsKept j key amount m apart)
      ]
