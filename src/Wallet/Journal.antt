-- ===== src/Wallet/Journal.antt =====
-- Proofs about `record`: the balances, the journal and its sum.
use pokerhub.Wallet.Reconcile.{
  total_journal, IsBooked, IsReconciled, AreFresh, record_entries-IsReconciled,
}
use pokerhub.Prelude.{
  ◌++◌, if◌then◌else◌, Option, refl, ◌∙◌, ◌≡◌, [], ap, List, ◌∷◌, ℕ, none, ◌≢◌, true, and_left, sym,
  ◌&&◌, arith, ◌==◌, some, find,
}
use pokerhub.Wallet.Types.{
  RefId, ProviderStatus, JournalEntry, unbalanced, OnDone, OnDone-if, failed, Movement, done,
  RefType, AccountName, Ledger, same_name, Account, Outcome, not_found,
}
use pokerhub.Prelude.Int.{ℤ, eq_of_eqb_ℤ, ◌+ℤ◌, int_laws, add-zero_ℤ, eqb_ℤ, pos}
use pokerhub.Wallet.Record.{
  all_events, sum_movements, entry_of, post_all, find_account, find_named, post, is_recorded,
  record_entries,
}
use pokerhub.Prelude.All.{OptionAll, find-passes}

total_journal-snoc :
    (js : List JournalEntry) (j : JournalEntry)
    → total_journal (js ++ j ∷ []) ≡ total_journal js +ℤ j.amount
unfolding total_journal
total_journal-snoc [] j = omega int_laws
total_journal-snoc (k ∷ js) j = rw (total_journal-snoc js j) (omega int_laws)

module _ (hash : RefType → RefId → ℕ → ℤ → ℕ) (t : RefType) (r : RefId)
    (provider : Option (ℕ × ProviderStatus)) where
  post_all-total_journal :
      (ms : List Movement) (l : Ledger)
      → total_journal (post_all hash t r provider ms l).journals
        ≡ total_journal l.journals +ℤ sum_movements ms
  unfolding post_all sum_movements
  post_all-total_journal [] l = omega int_laws
  post_all-total_journal (m ∷ ms) l =
      rw (post_all-total_journal ms (post hash t r provider m l))
        (rw (total_journal-snoc l.journals (entry_of hash t r provider m)) (omega int_laws))

  pub record_entries-total_journal :
      (ms : List Movement) (l : Ledger)
      → OnDone
          (λ n. total_journal n.journals ≡ total_journal l.journals)
          (record_entries hash t r ms provider l)
  unfolding record_entries
  record_entries-total_journal ms l =
      let posted = post_all hash t r provider ms l in
      let final = record posted { events = posted.events ++ all_events ms } in
      let P = λ (n : Ledger). total_journal n.journals ≡ total_journal l.journals in
      OnDone-if P (eqb_ℤ (sum_movements ms) (pos 0))
        (if is_recorded hash t r ms l then done l else done final) (failed unbalanced)
        (λ balanced.
          OnDone-if P (is_recorded hash t r ms l) (done l) (done final) (λ _. refl)
            λ _.
              post_all-total_journal ms l
              ∙ ap (λ k. total_journal l.journals +ℤ k) (eq_of_eqb_ℤ _ _ balanced)
              ∙ add-zero_ℤ (total_journal l.journals))
        (λ _. tt)

same_name-eq : (a b : AccountName) → same_name a b ≡ true → a ≡ b
same_name-eq a b h = ground arith

-- What a well-behaved operation does to a ledger.
module _ (name_of : ℕ → AccountName) where
  abbrev pub KeepsBooks : Ledger → Ledger → Type 0
  KeepsBooks l n = IsReconciled name_of n × (total_journal n.journals ≡ total_journal l.journals)

  or_not_found :
      (P Q : Account → Type 0) (o : Option Account)
      → OptionAll P o
      → ((a : Account) → P a → Q a)
      → OnDone Q (elim o [ none ↦ failed not_found | some a ↦ done a ])
  or_not_found P Q none h f = tt
  or_not_found P Q (some a) h f = f a h

  -- An account that is found is booked.
  pub find_account-IsBooked :
      (i currency : ℕ) (l : Ledger)
      → IsReconciled name_of l
      → OnDone (λ a. IsBooked name_of l.journals a × (a.id ≡ i)) (find_account i currency l)
  unfolding find_account
  find_account-IsBooked i currency l sound =
      let test = λ (a : Account). a.id == i && a.currency == currency in
      or_not_found (λ a. IsBooked name_of l.journals a × (test a ≡ true))
        (λ a. IsBooked name_of l.journals a × (a.id ≡ i)) (find test l.accounts)
        (find-passes (IsBooked name_of l.journals) test l.accounts sound)
        λ a (b, e). (b, ground arith)

  pub find_named-IsBooked :
      (name : AccountName) (currency : ℕ) (l : Ledger)
      → IsReconciled name_of l
      → OnDone (λ a. IsBooked name_of l.journals a × (a.name ≡ name)) (find_named name currency l)
  unfolding find_named
  find_named-IsBooked name currency l sound =
      let test = λ (a : Account). same_name a.name name && a.currency == currency in
      or_not_found (λ a. IsBooked name_of l.journals a × (test a ≡ true))
        (λ a. IsBooked name_of l.journals a × (a.name ≡ name)) (find test l.accounts)
        (find-passes (IsBooked name_of l.journals) test l.accounts sound)
        λ a (b, e). (b, same_name-eq a.name name (and_left _ _ e))

  -- Accounts of different names are different.
  pub ids_apart :
      (js : List JournalEntry) (a b : Account)
      → IsBooked name_of js a
      → IsBooked name_of js b
      → a.name ≢ b.name
      → a.id ≢ b.id
  ids_apart js a b (_, na) (_, nb) ne e = ne (na ∙ ap name_of e ∙ sym nb)

  pub record_entries-KeepsBooks :
      (hash : RefType → RefId → ℕ → ℤ → ℕ) (t : RefType) (r : RefId) (ms : List Movement)
      (provider : Option (ℕ × ProviderStatus)) (l : Ledger)
      → IsReconciled name_of l
      → AreFresh name_of l.journals ms
      → OnDone (KeepsBooks l) (record_entries hash t r ms provider l)
  record_entries-KeepsBooks hash t r ms provider l sound fresh =
      both (record_entries hash t r ms provider l)
        (record_entries-IsReconciled name_of hash t r provider ms l sound fresh)
        (record_entries-total_journal hash t r provider ms l)
    where
      both :
          (o : Outcome Ledger)
          → OnDone (IsReconciled name_of) o
          → OnDone (λ n. total_journal n.journals ≡ total_journal l.journals) o
          → OnDone (KeepsBooks l) o
      both (done n) h k = (h, k)
      both (failed e) h k = tt
