-- ===== src/Wallet/Bounds.antt =====
-- Proofs about the limits: what the counters hold after each check.
use pokerhub.Wallet.Limits.{
  same_op, CounterKey, same_key, read_counter, add_to, Counters, device_velocity, ip_velocity,
  daily_count, hourly_count, hourly_amount, daily_total, deposit_ref,
}
use pokerhub.Prelude.{
  ◌∷◌, true, [], refl, ◌≡◌, if◌then◌else◌, sym, Bool-cases, arith, ◌≢◌, inl, ◌∙◌, ap, inr, false,
}
use pokerhub.Prelude.Int.{◌+ℤ◌, ℤ, int_laws}
use pokerhub.Wallet.Bank.{pay_out, PaymentOp, pay_in}

true_ne_false : true ≢ false
true_ne_false h = cc

same_op_iff : (o p : PaymentOp) → same_op o p ≡ true → o ≡ p
same_op_iff pay_in pay_in h = refl
same_op_iff pay_out pay_out h = refl
same_op_iff pay_in pay_out h = cc
same_op_iff pay_out pay_in h = cc

same_op_self : (o : PaymentOp) → same_op o o ≡ true
same_op_self pay_in = refl
same_op_self pay_out = refl

pub same_key-eq : (j k : CounterKey) → same_key j k ≡ true → j ≡ k
same_key-eq (ip_velocity o i) (ip_velocity p j) h = ground (arith, same_op_iff o p)
same_key-eq (device_velocity o i) (device_velocity p j) h = ground (arith, same_op_iff o p)
same_key-eq (hourly_count o i) (hourly_count p j) h = ground (arith, same_op_iff o p)
same_key-eq (hourly_amount o i) (hourly_amount p j) h = ground (arith, same_op_iff o p)
same_key-eq (daily_count o i) (daily_count p j) h = ground (arith, same_op_iff o p)
same_key-eq (daily_total o i d) (daily_total p j e) h = ground (arith, same_op_iff o p)
same_key-eq deposit_ref deposit_ref h = refl
same_key-eq _ _ h = cc

pub same_key_self : (k : CounterKey) → same_key k k ≡ true
same_key_self (ip_velocity o i) = ground (arith, same_op_self o)
same_key_self (device_velocity o i) = ground (arith, same_op_self o)
same_key_self (hourly_count o i) = ground (arith, same_op_self o)
same_key_self (hourly_amount o i) = ground (arith, same_op_self o)
same_key_self (daily_count o i) = ground (arith, same_op_self o)
same_key_self (daily_total o i d) = ground (arith, same_op_self o)
same_key_self deposit_ref = refl

pub other_key :
    (i j k : CounterKey) → same_key i j ≡ true → same_key i k ≡ false → same_key k j ≡ false
other_key i j k own miss = elim (Bool-cases (same_key k j)) [
  | inl hit ↦
      let e : k ≡ i = same_key-eq k j hit ∙ sym (same_key-eq i j own) in
      absurd (true_ne_false (sym (same_key_self i) ∙ ap (λ x. same_key i x) (sym e) ∙ miss))
  | inr apart ↦ apart
]

-- A counter after another one, or itself, has been added to.
pub read-add_to :
    (j k : CounterKey) (amount : ℤ) (c : Counters)
    → read_counter j (add_to k amount c)
      ≡ (if same_key k j then read_counter j c +ℤ amount else read_counter j c)
unfolding read_counter add_to
read-add_to j k amount [] = elim (Bool-cases (same_key k j)) [
  | inl own ↦ rw own (omega int_laws)
  | inr apart ↦ rw apart refl
]
read-add_to j k amount ((i, n) ∷ c) = elim (Bool-cases (same_key i k)) [
  | inl hit ↦
      let e : i ≡ k = same_key-eq i k hit in
      rw hit (
        rw e
          (elim (Bool-cases (same_key k j)) [ inl own ↦ rw own refl | inr apart ↦ rw apart refl ]))
  | inr miss ↦ rw miss (elim (Bool-cases (same_key i j)) [
    | inl own ↦
        let apart : same_key k j ≡ false = other_key i j k own miss in rw own (rw apart refl)
    | inr apart ↦ rw apart (read-add_to j k amount c)
  ])
]
