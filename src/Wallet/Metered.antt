-- ===== src/Wallet/Metered.antt =====
-- Proofs about sequences of checks that pass: what they have counted.
use pokerhub.Prelude.{Option, false, none, ◌≡◌, ◌∙◌, Bool, refl, ℕ, some}
use pokerhub.Wallet.Limits.{
  enforce_velocity, same_key, Velocity, hourly_amount, daily_count, hourly_count, CounterKey,
  then_check, enforce_daily, Checked, enforce_window, Meter, daily_total, check_velocity,
  ip_velocity, device_velocity,
}
use pokerhub.Prelude.Int.{pos, ℤ}
use pokerhub.Wallet.Caps.{enforce_window_other}
use pokerhub.Wallet.Bank.{PaymentOp}
use pokerhub.Wallet.Passed.{
  IsCounted, IsKept, IsCounted-kept, then_check-passes, enforce_window_passes,
  check_velocity-IsKept, check_velocity_passes, enforce_daily_passes, enforce_daily-IsKept,
}

module _ (expires : CounterKey → Bool) (limits : Velocity) (op : PaymentOp) (account : ℕ)
    (amount : ℤ) where
  -- What a request that passes has added to the three counters of `enforceVelocity`.
  abbrev pub AreCounted : Meter → Meter → Type 0
  AreCounted m n =
      IsCounted (hourly_count op account) (pos 1) limits.hour_count m n
      × IsCounted (hourly_amount op account) amount limits.hour_amount m n
      × IsCounted (daily_count op account) (pos 1) limits.day_count m n

  -- The three counters are not this one.
  abbrev IsApart : CounterKey → Type 0
  IsApart j =
      (same_key (hourly_count op account) j ≡ false)
      × (same_key (hourly_amount op account) j ≡ false)
      × (same_key (daily_count op account) j ≡ false)

  enforce_velocity_passes :
      (m : Meter)
      → (enforce_velocity expires limits op account amount m).1 ≡ none
      → AreCounted m (enforce_velocity expires limits op account amount m).0
        × ((j : CounterKey)
            → IsApart j
            → IsKept j m (enforce_velocity expires limits op account amount m).0)
  unfolding enforce_velocity
  enforce_velocity_passes m h =
      let c1 = enforce_window expires (hourly_count op account) (pos 1) limits.hour_count m in
      let amounts : Meter → Checked =
        λ n. enforce_window expires (hourly_amount op account) amount limits.hour_amount n in
      let days : Meter → Checked =
        λ n. enforce_window expires (daily_count op account) (pos 1) limits.day_count n in
      let (p1, rest, e1) = then_check-passes c1 (λ n. then_check (amounts n) days) h in
      let (p2, p3, e2) = then_check-passes (amounts c1.0) days rest in
      let c2 = amounts c1.0 in
      let c3 = days c2.0 in
      let kept1 = λ (j : CounterKey).
        enforce_window_other expires j (hourly_count op account) (pos 1) limits.hour_count m in
      let kept2 = λ (j : CounterKey).
        enforce_window_other expires j (hourly_amount op account) amount limits.hour_amount c1.0 in
      let kept3 = λ (j : CounterKey).
        enforce_window_other expires j (daily_count op account) (pos 1) limits.day_count c2.0 in
      rw (e1 ∙ e2) (
        (
          IsCounted-kept (hourly_count op account) (pos 1) limits.hour_count m m c1.0 c3.0 refl
              (kept3 _ refl ∙ kept2 _ refl)
              (enforce_window_passes expires _ (pos 1) limits.hour_count m p1),
          IsCounted-kept (hourly_amount op account) amount limits.hour_amount m c1.0 c2.0 c3.0
              (kept1 _ refl) (kept3 _ refl)
              (enforce_window_passes expires _ amount limits.hour_amount c1.0 p2),
          IsCounted-kept (daily_count op account) (pos 1) limits.day_count m c2.0 c3.0 c3.0
              (kept2 _ refl ∙ kept1 _ refl) refl
              (enforce_window_passes expires _ (pos 1) limits.day_count c2.0 p3),
        ),
        λ j apart. kept3 j apart.2 ∙ kept2 j apart.1 ∙ kept1 j apart.0,
      )

-- What a request that passes all three checks has added, and that every counter is within its limit.
module _ (limits : Velocity) (daily : Option ℤ) (op : PaymentOp) (day account : ℕ) (amount : ℤ)
    (device ip : ℕ) where
  abbrev pub IsMetered : Meter → Meter → Type 0
  IsMetered m n =
      IsCounted (ip_velocity op ip) (pos 1) (some (pos 3)) m n
      × IsCounted (device_velocity op device) (pos 1) (some (pos 3)) m n
      × IsCounted (hourly_count op account) (pos 1) limits.hour_count m n
      × IsCounted (hourly_amount op account) amount limits.hour_amount m n
      × IsCounted (daily_count op account) (pos 1) limits.day_count m n
      × IsCounted (daily_total op account day) amount daily m n

  pub checks-IsMetered :
      (expires : CounterKey → Bool) (m : Meter)
      → (check_velocity op device ip m).1 ≡ none
      → (enforce_velocity expires limits op account amount (check_velocity op device ip m).0).1
        ≡ none
      → (enforce_daily daily op day account amount
          (enforce_velocity expires limits op account amount (check_velocity op device ip m).0).0).1
        ≡ none
      → IsMetered m
          (enforce_daily daily op day account amount
            (enforce_velocity expires limits op account amount
              (check_velocity op device ip m).0).0).0
  checks-IsMetered expires m h1 h2 h3 =
      let m1 = (check_velocity op device ip m).0 in
      let m2 = (enforce_velocity expires limits op account amount m1).0 in
      let m3 = (enforce_daily daily op day account amount m2).0 in
      let rates = check_velocity_passes op device ip m h1 in
      let (windows, kept2) = enforce_velocity_passes expires limits op account amount m1 h2 in
      let kept1 = check_velocity-IsKept op device ip in
      let kept3 = λ (j : CounterKey) (apart : same_key (daily_total op account day) j ≡ false).
        enforce_daily-IsKept op day account amount daily j m2 apart h3 in
      (
        IsCounted-kept _ (pos 1) (some (pos 3)) m m m1 m3 refl
            (kept3 (ip_velocity op ip) refl ∙ kept2 _ (refl, refl, refl)) rates.0,
        IsCounted-kept _ (pos 1) (some (pos 3)) m m m1 m3 refl
            (kept3 (device_velocity op device) refl ∙ kept2 _ (refl, refl, refl)) rates.1,
        IsCounted-kept _ (pos 1) limits.hour_count m m1 m2 m3 (kept1 _ m refl refl) (kept3 _ refl)
            windows.0,
        IsCounted-kept _ amount limits.hour_amount m m1 m2 m3 (kept1 _ m refl refl) (kept3 _ refl)
            windows.1,
        IsCounted-kept _ (pos 1) limits.day_count m m1 m2 m3 (kept1 _ m refl refl) (kept3 _ refl)
            windows.2,
        IsCounted-kept _ amount daily m m2 m3 m3
            (kept2 _ (refl, refl, refl) ∙ kept1 (daily_total op account day) m refl refl) refl
            (enforce_daily_passes op day account amount daily m2 h3),
      )
