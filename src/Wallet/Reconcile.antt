-- ===== src/Wallet/Reconcile.antt =====
-- `totalBalance`, `totalJournal` and `reconcile`, and proofs about the balances after `record`.
use pokerhub.Prelude.{
  List, ==_of_ne, inr, Bool-cases, Option, ◌≢◌, [], ℕ, ◌++◌, if◌then◌else◌, sym, ◌∷◌, ◌≡◌, ap, refl,
  ==_of_eq, ne_of_==, inl, ◌==◌, ◌∙◌,
}
use pokerhub.Wallet.Record.{
  record_entries, save_account, entry_of, post, post_all, all_events, sum_movements, is_recorded,
}
use pokerhub.Prelude.Int.{ℤ, int_laws, pos, add-zero_ℤ, ◌+ℤ◌, eqb_ℤ}
use pokerhub.Wallet.Types.{
  Ledger, ProviderStatus, JournalEntry, RefId, RefType, OnDone, Movement, AccountName, Account,
  unbalanced, OnDone-if, failed, done,
}
use pokerhub.Prelude.All.{All}

-- `SELECT COALESCE(SUM(j.amount), 0) ... WHERE j.accountId = :id`
unfoldable pub journal_sum : ℕ → List JournalEntry → ℤ
journal_sum i [] = pos 0
journal_sum i (j ∷ js) = (if j.account_id == i then j.amount else pos 0) +ℤ journal_sum i js

unfoldable pub total_journal : List JournalEntry → ℤ
total_journal [] = pos 0
total_journal (j ∷ js) = j.amount +ℤ total_journal js

unfoldable pub total_balance : List Account → ℤ
total_balance [] = pos 0
total_balance (a ∷ rows) = a.balance +ℤ total_balance rows

pub record ReconcileRow : Type 0 where
  pub account : AccountName
  pub balance : ℤ
  pub journal : ℤ

-- The loop of `reconcile`.
unfoldable pub mismatches : List JournalEntry → List Account → List ReconcileRow
unfolding journal_sum
mismatches js [] = []
mismatches js (a ∷ rows) =
    let rest = mismatches js rows in
    let total = journal_sum a.id js in
    if eqb_ℤ total a.balance
    then rest
    else record { account = a.name; balance = a.balance; journal = total } ∷ rest

unfoldable pub reconcile : Ledger → List ReconcileRow
unfolding mismatches
reconcile l = mismatches l.journals l.accounts

-- The identifier of an account determines its name.
module _ (name_of : ℕ → AccountName) where
  abbrev pub IsBooked : List JournalEntry → Account → Type 0
  IsBooked js a = (a.balance ≡ journal_sum a.id js) × (a.name ≡ name_of a.id)

  -- Every account's balance is the sum of its journal entries.
  abbrev pub IsReconciled : Ledger → Type 0
  IsReconciled l = All (IsBooked l.journals) l.accounts

  journal_sum-snoc :
      (i : ℕ) (js : List JournalEntry) (j : JournalEntry)
      → journal_sum i (js ++ j ∷ [])
        ≡ journal_sum i js +ℤ (if j.account_id == i then j.amount else pos 0)
  unfolding journal_sum
  journal_sum-snoc i [] j = omega int_laws
  journal_sum-snoc i (k ∷ js) j = rw (journal_sum-snoc i js j) (omega int_laws)

  -- A movement of another account leaves an account's books alone.
  IsBooked-other :
      (js : List JournalEntry) (j : JournalEntry) (a : Account)
      → j.account_id ≢ a.id
      → IsBooked js a
      → IsBooked (js ++ j ∷ []) a
  IsBooked-other js j a ne (b, n) = (
    b
        ∙ sym (
            journal_sum-snoc a.id js j
            ∙ rw (==_of_ne j.account_id a.id ne) (add-zero_ℤ (journal_sum a.id js))),
    n,
  )

  IsBooked-self :
      (js : List JournalEntry) (j : JournalEntry) (a : Account)
      → j.account_id ≡ a.id
      → IsBooked js a
      → IsBooked (js ++ j ∷ []) (record a { balance = a.balance +ℤ j.amount })
  IsBooked-self js j a e (b, n) = (
    ap (λ t. t +ℤ j.amount) b
        ∙ sym (journal_sum-snoc a.id js j ∙ rw (==_of_eq j.account_id a.id e) refl),
    n,
  )

  save-IsBooked :
      (js : List JournalEntry) (j : JournalEntry) (a : Account) (rows : List Account)
      → j.account_id ≡ a.id
      → IsBooked js a
      → All (IsBooked js) rows
      → All
          (IsBooked (js ++ j ∷ []))
          (save_account (record a { balance = a.balance +ℤ j.amount }) rows)
  unfolding save_account
  save-IsBooked js j a [] e h hs = tt
  save-IsBooked js j a (b ∷ rows) e h hs = elim (Bool-cases (b.id == a.id)) [
    | inl same ↦ rw same (IsBooked-self js j a e h, save-IsBooked js j a rows e h hs.1)
    | inr differ ↦ rw differ (
      IsBooked-other js j b (λ p. ne_of_== b.id a.id differ (sym p ∙ e)) hs.0,
      save-IsBooked js j a rows e h hs.1,
    )
  ]

  -- The movements are of distinct accounts, as they stand in the ledger.
  abbrev pub AreFresh : List JournalEntry → List Movement → Type 0
  AreFresh js [] = Unit
  AreFresh js (m ∷ ms) =
      IsBooked js m.account × All (λ n. m.account.id ≢ n.account.id) ms × AreFresh js ms

  AreFresh-other :
      (js : List JournalEntry) (j : JournalEntry) (ms : List Movement)
      → All (λ n. j.account_id ≢ n.account.id) ms
      → AreFresh js ms
      → AreFresh (js ++ j ∷ []) ms
  AreFresh-other js j [] ne h = tt
  AreFresh-other js j (m ∷ ms) ne h =
      (IsBooked-other js j m.account ne.0 h.0, h.1, AreFresh-other js j ms ne.1 h.2)

  module _ (hash : RefType → RefId → ℕ → ℤ → ℕ) (t : RefType) (r : RefId)
      (provider : Option (ℕ × ProviderStatus)) where
    post_all-IsReconciled :
        (ms : List Movement) (l : Ledger)
        → IsReconciled l
        → AreFresh l.journals ms
        → IsReconciled (post_all hash t r provider ms l)
    unfolding post_all
    post_all-IsReconciled [] l sound fresh = sound
    post_all-IsReconciled (m ∷ ms) l sound (booked, apart, fresh) =
        let j = entry_of hash t r provider m in
        post_all-IsReconciled ms (post hash t r provider m l)
          (save-IsBooked l.journals j m.account l.accounts refl booked sound)
          (AreFresh-other l.journals j ms apart fresh)

    pub record_entries-IsReconciled :
        (ms : List Movement) (l : Ledger)
        → IsReconciled l
        → AreFresh l.journals ms
        → OnDone IsReconciled (record_entries hash t r ms provider l)
    unfolding record_entries
    record_entries-IsReconciled ms l sound fresh =
        let posted = post_all hash t r provider ms l in
        let final = record posted { events = posted.events ++ all_events ms } in
        OnDone-if IsReconciled (eqb_ℤ (sum_movements ms) (pos 0))
          (if is_recorded hash t r ms l then done l else done final) (failed unbalanced)
          (λ _.
            OnDone-if IsReconciled (is_recorded hash t r ms l) (done l) (done final) (λ _. sound)
              λ _. post_all-IsReconciled ms l sound fresh)
          (λ _. tt)
