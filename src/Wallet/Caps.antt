-- ===== src/Wallet/Caps.antt =====
-- Proofs about the totals that the limits admit.
use pokerhub.Prelude.{
  Option, le_of_not_ltb, false, none, ◌≡◌, [], Bool-cases, ◌∙◌, inl, Bool, refl, ℕ, ◌∷◌, some, ◌&&◌,
  List, not, inr, ◌++◌, ap,
}
use pokerhub.Wallet.Limits.{
  enforce_velocity, same_key, Counters, Velocity, hourly_amount, add_to, exceeds, daily_count,
  hourly_count, CounterKey, read_counter, then_check, enforce_daily, Checked, enforce_window, Meter,
  daily_total, over_daily, LimitError, set_counters,
}
use pokerhub.Prelude.Int.{eqb_ℤ, int_laws, pos, ℤ, ltb_ℤ, ◌≤ℤ◌, ◌+ℤ◌}
use pokerhub.Wallet.Bounds.{read-add_to, same_key_self}
use pokerhub.Wallet.Hand.{neg}
use pokerhub.Wallet.Bank.{PaymentOp}

pub read-add_to_self :
    (k : CounterKey) (amount : ℤ) (c : Counters)
    → read_counter k (add_to k amount c) ≡ read_counter k c +ℤ amount
read-add_to_self k amount c = read-add_to k k amount c ∙ rw (same_key_self k) refl

-- What is added and taken away again leaves every counter as it was.
read-undone :
    (j k : CounterKey) (amount : ℤ) (c : Counters)
    → read_counter j (add_to k (neg amount) (add_to k amount c)) ≡ read_counter j c
read-undone j k amount c =
    read-add_to j k (neg amount) (add_to k amount c) ∙ elim (Bool-cases (same_key k j)) [
      | inl own ↦ rw own (rw (read-add_to j k amount c) (rw own (omega int_laws)))
      | inr apart ↦ rw apart (read-add_to j k amount c ∙ rw apart refl)
    ]

pub le_of_ltb_ℤ : (a b : ℤ) → ltb_ℤ b a ≡ false → a ≤ℤ b
le_of_ltb_ℤ a b h = le_of_not_ltb _ _ h

-- A counter that is within its limit, if it has one.
abbrev pub IsWithin : CounterKey → Option ℤ → Meter → Type 0
IsWithin key none m = Unit
IsWithin key (some limit) m = read_counter key m.counters ≤ℤ limit

module _ (expires : CounterKey → Bool) where
  -- The block of a counter keeps it within its limit, and touches no other counter.
  enforce_window-IsWithin :
      (key : CounterKey) (amount : ℤ) (limit : Option ℤ) (m : Meter)
      → IsWithin key limit m
      → IsWithin key limit (enforce_window expires key amount limit m).0
  unfolding enforce_window
  enforce_window-IsWithin key amount none m h = tt
  enforce_window-IsWithin key amount (some limit) m h =
      let added = add_to key amount m.counters in
      let total = read_counter key added in
      elim (Bool-cases (eqb_ℤ total amount && not (expires key))) [
        | inl failed_expiry ↦ rw failed_expiry (rw (read-undone key key amount m.counters) h)
        | inr live ↦ elim (Bool-cases (exceeds total limit)) [
          | inl over ↦ rw live (rw over (rw (read-undone key key amount m.counters) h))
          | inr under ↦ rw live (rw under (le_of_ltb_ℤ total limit under))
        ]
      ]

  pub enforce_window_other :
      (j key : CounterKey) (amount : ℤ) (limit : Option ℤ) (m : Meter)
      → same_key key j ≡ false
      → read_counter j (enforce_window expires key amount limit m).0.counters
        ≡ read_counter j m.counters
  unfolding enforce_window
  enforce_window_other j key amount none m apart = refl
  enforce_window_other j key amount (some limit) m apart =
      let added = add_to key amount m.counters in
      let total = read_counter key added in
      let untouched : read_counter j added ≡ read_counter j m.counters =
        read-add_to j key amount m.counters ∙ rw apart refl in
      elim (Bool-cases (eqb_ℤ total amount && not (expires key))) [
        | inl failed_expiry ↦ rw failed_expiry (read-undone j key amount m.counters)
        | inr live ↦ elim (Bool-cases (exceeds total limit)) [
          | inl over ↦ rw live (rw over (read-undone j key amount m.counters))
          | inr under ↦ rw live (rw under untouched)
        ]
      ]

  -- The same, of any limit.
  enforce_window-IsWithin_other :
      (j key : CounterKey) (amount : ℤ) (limit bound : Option ℤ) (m : Meter)
      → same_key key j ≡ false
      → IsWithin j bound m
      → IsWithin j bound (enforce_window expires key amount limit m).0
  enforce_window-IsWithin_other j key amount limit none m apart h = tt
  enforce_window-IsWithin_other j key amount limit (some bound) m apart h =
      rw (enforce_window_other j key amount limit m apart) h

  -- The three counters of an operation on an account.
  abbrev pub AreWithin : Velocity → PaymentOp → ℕ → Meter → Type 0
  AreWithin limits op account m =
      IsWithin (hourly_count op account) limits.hour_count m
      × IsWithin (hourly_amount op account) limits.hour_amount m
      × IsWithin (daily_count op account) limits.day_count m

  then_check-holds :
      (P : Meter → Type 0) (r : Checked) (f : Meter → Checked)
      → P r.0
      → ((m : Meter) → P m → P (f m).0)
      → P (then_check r f).0
  then_check-holds P (m, none) f h step = step m h
  then_check-holds P (m, some e) f h step = h

  -- However `enforceVelocity` ends, the counters of the operation stay within their limits: a counter that
  -- passes its limit, or whose expiry cannot be set, is taken back before the error is thrown.
  pub enforce_velocity-AreWithin :
      (limits : Velocity) (op : PaymentOp) (account : ℕ) (amount : ℤ) (m : Meter)
      → AreWithin limits op account m
      → AreWithin limits op account (enforce_velocity expires limits op account amount m).0
  unfolding enforce_velocity
  enforce_velocity-AreWithin limits op account amount m h =
      let P = AreWithin limits op account in
      then_check-holds P
        (enforce_window expires (hourly_count op account) (pos 1) limits.hour_count m) _
        (counted m h)
        λ m1 h1.
          then_check-holds P
            (enforce_window expires (hourly_amount op account) amount limits.hour_amount m1) _
            (summed m1 h1) λ m2 h2. day_counted m2 h2
    where
      counted :
          (n : Meter)
          → AreWithin limits op account n
          → AreWithin limits op account
              (enforce_window expires (hourly_count op account) (pos 1) limits.hour_count n).0
      counted n (a, b, c) = (
        enforce_window-IsWithin (hourly_count op account) (pos 1) limits.hour_count n a,
        enforce_window-IsWithin_other (hourly_amount op account) (hourly_count op account) (pos 1)
            limits.hour_count limits.hour_amount n refl b,
        enforce_window-IsWithin_other (daily_count op account) (hourly_count op account) (pos 1)
            limits.hour_count limits.day_count n refl c,
      )

      summed :
          (n : Meter)
          → AreWithin limits op account n
          → AreWithin limits op account
              (enforce_window expires (hourly_amount op account) amount limits.hour_amount n).0
      summed n (a, b, c) = (
        enforce_window-IsWithin_other (hourly_count op account) (hourly_amount op account) amount
            limits.hour_amount limits.hour_count n refl a,
        enforce_window-IsWithin (hourly_amount op account) amount limits.hour_amount n b,
        enforce_window-IsWithin_other (daily_count op account) (hourly_amount op account) amount
            limits.hour_amount limits.day_count n refl c,
      )

      day_counted :
          (n : Meter)
          → AreWithin limits op account n
          → AreWithin limits op account
              (enforce_window expires (daily_count op account) (pos 1) limits.day_count n).0
      day_counted n (a, b, c) = (
        enforce_window-IsWithin_other (hourly_count op account) (daily_count op account) (pos 1)
            limits.day_count limits.hour_count n refl a,
        enforce_window-IsWithin_other (hourly_amount op account) (daily_count op account) (pos 1)
            limits.day_count limits.hour_amount n refl b,
        enforce_window-IsWithin (daily_count op account) (pos 1) limits.day_count n c,
      )

-- The sum so far, with an amount that no error kept out.
abbrev pub add_admitted : Option LimitError → ℤ → ℤ × Meter → ℤ × Meter
add_admitted none amount (sum, m) = (amount +ℤ sum, m)
add_admitted (some _) amount (sum, m) = (sum, m)

-- The sum of the amounts of a day's requests that pass, and the meter after them.
unfoldable pub admitted : ℤ → PaymentOp → ℕ → ℕ → List ℤ → Meter → ℤ × Meter
unfolding enforce_daily
admitted limit op day account [] m = (pos 0, m)
admitted limit op day account (amount ∷ amounts) m =
    let r = enforce_daily (some limit) op day account amount m in
    add_admitted r.1 amount (admitted limit op day account amounts r.0)

abbrev IsCapped : ℤ → CounterKey → ℤ → ℤ × Meter → Type 0
IsCapped limit key before (sum, m) =
    (before +ℤ sum ≤ℤ limit) × (read_counter key m.counters ≡ before +ℤ sum)

IsCapped-add :
    (limit : ℤ) (key : CounterKey) (before amount : ℤ) (r : ℤ × Meter)
    → IsCapped limit key (before +ℤ amount) r
    → IsCapped limit key before (add_admitted none amount r)
IsCapped-add limit key before amount (sum, m) (h, e) = (omega int_laws, e ∙ omega int_laws)

admitted-IsCapped :
    (limit : ℤ) (op : PaymentOp) (day account : ℕ) (amounts : List ℤ) (m : Meter) (before : ℤ)
    → read_counter (daily_total op account day) m.counters ≡ before
    → before ≤ℤ limit
    → IsCapped limit (daily_total op account day) before (admitted limit op day account amounts m)
unfolding admitted
admitted-IsCapped limit op day account [] m before e h = (omega int_laws, e ∙ omega int_laws)
admitted-IsCapped limit op day account (amount ∷ amounts) m before e h =
    let key = daily_total op account day in
    let added = add_to key amount m.counters in
    let total = read_counter key added in
    let same : total ≡ before +ℤ amount =
      read-add_to_self key amount m.counters ∙ ap (λ k. k +ℤ amount) e in
    elim (Bool-cases (exceeds total limit)) [
      | inl over ↦ rw over (
          admitted-IsCapped limit op day account amounts
            (record {
              counters = add_to key (neg amount) added;
              alerts = m.alerts ++ over_daily op account total ∷ [];
            })
            before (read-undone key key amount m.counters ∙ e) h)
      | inr under ↦ rw under (
          IsCapped-add limit key before amount
            (admitted limit op day account amounts (set_counters m added))
            (admitted-IsCapped limit op day account amounts (set_counters m added)
              (before +ℤ amount) same (rw (← same) (le_of_ltb_ℤ total limit under))))
    ]

-- However many requests a day brings, the amounts that `enforceDailyLimit` lets pass never add up to more
-- than the limit with what was counted before, and their total is what is counted after.
pub admitted-le :
    (limit : ℤ) (op : PaymentOp) (day account : ℕ) (amounts : List ℤ) (m : Meter)
    → read_counter (daily_total op account day) m.counters ≤ℤ limit
    → (read_counter (daily_total op account day) m.counters
          +ℤ (admitted limit op day account amounts m).0
        ≤ℤ limit)
      × (read_counter
            (daily_total op account day)
            (admitted limit op day account amounts m).1.counters
          ≡ read_counter (daily_total op account day) m.counters
            +ℤ (admitted limit op day account amounts m).0)
admitted-le limit op day account amounts m h =
    admitted-IsCapped limit op day account amounts m _ refl h
