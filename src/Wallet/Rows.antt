-- ===== src/Wallet/Rows.antt =====
-- Proofs about the rows of pending deposits: which one is found, and its status.
use pokerhub.Prelude.{
  ◌∷◌, [], ◌==◌, ◌++◌, true, ℕ, find, refl, update_first, false, inr, inl, Bool-cases, ◌≡◌, Bool,
  none, some, if◌then◌else◌, Option, List, sym, ◌∙◌, ap, eq_of_==,
}
use pokerhub.Wallet.Bank.{find_deposit, Bank, PendingDeposit, DepositStatus}

-- The status of the first row with this identifier.
abbrev pub status_in : ℕ → List PendingDeposit → Option DepositStatus
status_in i [] = none
status_in i (d ∷ ds) = if d.id == i then some d.status else status_in i ds

-- The deposit of this identifier is there and rejected.
abbrev pub IsRejected : ℕ → Bank → Type 0
IsRejected i b = status_in i b.deposits ≡ some DepositStatus.rejected

module _ (i : ℕ) where
  -- Saving a row keeps the deposit rejected, if the row is another's or itself rejected.
  pub save_in :
      (e : PendingDeposit) (ds : List PendingDeposit)
      → ((e.id == i) ≡ true → e.status ≡ DepositStatus.rejected)
      → status_in i ds ≡ some DepositStatus.rejected
      → status_in i (update_first (λ d. d.id == e.id) (λ _. e) ds) ≡ some DepositStatus.rejected
  save_in e [] own h = h
  save_in e (d ∷ ds) own h = elim (Bool-cases (d.id == e.id)) [
    | inl hit ↦ elim (Bool-cases (e.id == i)) [
      | inl same ↦ rw hit (rw same (ap some (own same)))
      | inr other ↦
          let miss : (d.id == i) ≡ false = rw (eq_of_== d.id e.id hit) other in
          rw hit (rw other (rw miss at h))
    ]
    | inr skip ↦ elim (Bool-cases (d.id == i)) [
      | inl found ↦ rw skip (rw found (rw found at h))
      | inr miss ↦ rw skip (rw miss (save_in e ds own (rw miss at h)))
    ]
  ]

  -- A row that is saved where one is found.
  pub saved_in :
      (e d : PendingDeposit) (ds : List PendingDeposit)
      → find (λ d. d.id == i) ds ≡ some d
      → (e.id == i) ≡ true
      → status_in i (update_first (λ d. d.id == e.id) (λ _. e) ds) ≡ some e.status
  saved_in e d [] h own = absurd (cc)
  saved_in e d (x ∷ ds) h own =
      let same : (x.id == e.id) ≡ (x.id == i) = rw (eq_of_== e.id i own) refl in
      elim (Bool-cases (x.id == i)) [
        | inl hit ↦ rw (same ∙ hit) (rw own refl)
        | inr miss ↦ rw (same ∙ miss) (rw miss (saved_in e d ds (rw miss at h) own))
      ]

  pub append_in :
      (e : PendingDeposit) (ds : List PendingDeposit)
      → status_in i ds ≡ some DepositStatus.rejected
      → status_in i (ds ++ e ∷ []) ≡ some DepositStatus.rejected
  append_in e [] h = absurd (cc)
  append_in e (d ∷ ds) h = elim (Bool-cases (d.id == i)) [
    | inl found ↦ rw found (rw found at h)
    | inr miss ↦ rw miss (append_in e ds (rw miss at h))
  ]

  pub mark_in :
      (p : PendingDeposit → Bool) (ds : List PendingDeposit)
      → status_in i (update_first p (λ d. record d { action_required = true }) ds) ≡ status_in i ds
  mark_in p [] = refl
  mark_in p (d ∷ ds) = elim (Bool-cases (p d)) [
    | inl hit ↦ elim (Bool-cases (d.id == i)) [
      | inl found ↦ rw hit (rw found refl)
      | inr miss ↦ rw hit (rw miss refl)
    ]
    | inr skip ↦ elim (Bool-cases (d.id == i)) [
      | inl found ↦ rw skip (rw found refl)
      | inr miss ↦ rw skip (rw miss (mark_in p ds))
    ]
  ]

  found_status :
      (ds : List PendingDeposit) (d : PendingDeposit)
      → find (λ d. d.id == i) ds ≡ some d
      → status_in i ds ≡ some d.status
  found_status [] d h = absurd (cc)
  found_status (e ∷ ds) d h = elim (Bool-cases (e.id == i)) [
    | inl hit ↦
        let same : some e ≡ some d = rw hit at h in
        rw hit
          (ap (λ (o : Option PendingDeposit). elim o [ none ↦ none | some x ↦ some x.status ]) same)
    | inr miss ↦ rw miss (found_status ds d (rw miss at h))
  ]

  -- The row that is found is rejected.
  pub rejected_row :
      (ds : List PendingDeposit)
      → status_in i ds ≡ some DepositStatus.rejected
      → (d : PendingDeposit) × (find (λ d. d.id == i) ds ≡ some d)
        × (d.status ≡ DepositStatus.rejected)
  rejected_row [] h = absurd (cc)
  rejected_row (e ∷ ds) h = elim (Bool-cases (e.id == i)) [
    | inl hit ↦
        let same : some e.status ≡ some DepositStatus.rejected = rw hit at h in (e, rw hit refl, cc)
    | inr miss ↦
        let (d, found, status) = rejected_row ds (rw miss at h) in (d, rw miss found, status)
  ]

  -- A deposit that is found under a identifier and is this one is rejected.
  pub found_rejected :
      (j : ℕ) (b : Bank) (d : PendingDeposit)
      → IsRejected i b
      → find_deposit j b ≡ some d
      → (d.id == j) ≡ true
      → (d.id == i) ≡ true
      → d.status ≡ DepositStatus.rejected
  unfolding find_deposit
  found_rejected j b d h found same own =
      let e : j ≡ i = sym (eq_of_== d.id j same) ∙ eq_of_== d.id i own in
      let found_i : find (λ d. d.id == i) b.deposits ≡ some d = rw (← e) found in
      let status = found_status b.deposits d found_i in cc
