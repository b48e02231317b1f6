-- ===== src/Wallet/Books.antt =====
-- Proofs about the balances and the journal after `reserve`, `commit` and `rollback`.
use pokerhub.Wallet.Types.{
  AccountName, RefType, JournalEntry, other, Settlement, OnDone-bind, ProviderStatus, Ledger,
  OnDone, hand_step, Account, done, RefId, plain,
}
use pokerhub.Prelude.{
  some, any, ℕ, inr, sym, inl, ◌≡◌, Option, [], ap, Bool-cases, ◌≢◌, ◌∙◌, ◌∷◌, List, none,
}
use pokerhub.Wallet.Journal.{
  record_entries-KeepsBooks, find_named-IsBooked, find_account-IsBooked, KeepsBooks,
}
use pokerhub.Wallet.Hand.{
  settlement_reserve, reserve_funds, rollback_funds, same_ref, neg, commit_funds, with_key,
  settlement_mark, cancel_step,
}
use pokerhub.Wallet.Record.{record_entries, find_named, find_account}
use pokerhub.Prelude.Int.{◌-ℤ◌, ℤ}
use pokerhub.Wallet.Reconcile.{IsBooked, IsReconciled}

-- What holds of a ledger whatever its settlements are holds after the row of a key is inserted.
pub with_key-reserve :
    (P : Ledger → Type 0) (key : Option RefId) (l : Ledger)
    → P l
    → ((ss : List Settlement) → P (record l { settlements = ss }))
    → P (with_key settlement_reserve key l)
unfolding settlement_reserve
with_key-reserve P none l h k = h
with_key-reserve P (some key) l h k =
    elim (Bool-cases (any (λ s. same_ref s.key key) l.settlements)) [
      | inl old ↦ rw old h
      | inr new ↦ rw new (k _)
    ]

module _ (name_of : ℕ → AccountName) where
  abbrev pub IsPlayer : List JournalEntry → ℕ → Account → Type 0
  IsPlayer js i a = IsBooked name_of js a × (a.id ≡ i)

  abbrev pub IsNamed : List JournalEntry → AccountName → Account → Type 0
  IsNamed js name a = IsBooked name_of js a × (a.name ≡ name)

  settlement_mark-KeepsBooks :
      (key : Option RefId) (l n : Ledger)
      → KeepsBooks name_of l n
      → KeepsBooks name_of l (with_key settlement_mark key n)
  unfolding settlement_mark
  settlement_mark-KeepsBooks none l n h = h
  settlement_mark-KeepsBooks (some key) l n h = h

  cancel_step-KeepsBooks :
      (key : Option RefId) (l n : Ledger)
      → KeepsBooks name_of l n
      → KeepsBooks name_of l (with_key cancel_step key n)
  unfolding cancel_step
  cancel_step-KeepsBooks none l n h = h
  cancel_step-KeepsBooks (some (plain k)) l n h = h
  cancel_step-KeepsBooks (some (hand_step k s i)) l n h = h

  pub player-apart :
      (js : List JournalEntry) (i : ℕ) (name : AccountName) (a b : Account)
      → name_of i ≡ other
      → other ≢ name
      → IsPlayer js i a
      → IsNamed js name b
      → a.id ≢ b.id
  player-apart js i name a b player ne (ba, ia) (bb, nb) e =
      ne (sym player ∙ ap name_of (sym ia ∙ e) ∙ sym bb.1 ∙ nb)

  named-apart :
      (js : List JournalEntry) (x y : AccountName) (a b : Account)
      → x ≢ y
      → IsNamed js x a
      → IsNamed js y b
      → a.id ≢ b.id
  named-apart js x y a b ne (ba, na) (bb, nb) e = ne (sym na ∙ ba.1 ∙ ap name_of e ∙ sym bb.1 ∙ nb)

  module _ (hash : RefType → RefId → ℕ → ℤ → ℕ) (l : Ledger) (sound : IsReconciled name_of l) where
    named :
        (name : AccountName) (currency : ℕ)
        → OnDone (IsNamed l.journals name) (find_named name currency l)
    named name currency = find_named-IsBooked name_of name currency l sound

    player : (i currency : ℕ) → OnDone (IsPlayer l.journals i) (find_account i currency l)
    player i currency = find_account-IsBooked name_of i currency l sound

    -- Two movements of different accounts.
    pub pair-KeepsBooks :
        (t : RefType) (ref : RefId) (provider : Option (ℕ × ProviderStatus)) (a b : Account)
        (x y : ℤ)
        → IsBooked name_of l.journals a
        → IsBooked name_of l.journals b
        → a.id ≢ b.id
        → OnDone (KeepsBooks name_of l) (
            record_entries hash t ref
              (record { account = a; amount = x } ∷ record { account = b; amount = y } ∷ [])
              provider
              l)
    pair-KeepsBooks t ref provider a b x y ba bb ne =
        record_entries-KeepsBooks name_of hash t ref
          (record { account = a; amount = x } ∷ record { account = b; amount = y } ∷ []) provider l
          sound (ba, (ne, tt), (bb, tt, tt))

    pub reserve_funds-books :
        (i : ℕ) (amount : ℤ) (ref : RefId) (currency : ℕ) (key : Option RefId)
        → name_of i ≡ other
        → OnDone (KeepsBooks name_of l) (reserve_funds hash i amount ref currency key l)
    unfolding reserve_funds
    reserve_funds-books i amount ref currency key is_player =
        OnDone-bind (IsPlayer l.journals i) (KeepsBooks name_of l) (find_account i currency l) _
          (player i currency)
          λ user u.
            OnDone-bind (IsNamed l.journals AccountName.reserve) (KeepsBooks name_of l)
              (find_named AccountName.reserve currency l) _ (named AccountName.reserve currency)
              λ pool p.
                let ms =
                  record { account = user; amount = neg amount }
                  ∷ record { account = pool; amount = amount }
                  ∷ [] in
                let ne =
                  player-apart l.journals i AccountName.reserve user pool is_player (λ e. cc) u p in
                with_key-reserve
                  (λ n.
                    OnDone (KeepsBooks name_of l)
                      (record_entries hash RefType.reserve ref ms none n))
                  key l
                  (pair-KeepsBooks RefType.reserve ref none user pool (neg amount) amount u.0 p.0
                    ne)
                  λ ss.
                    record_entries-KeepsBooks name_of hash RefType.reserve ref ms none
                      (record l { settlements = ss }) sound (u.0, (ne, tt), (p.0, tt, tt))

    pub rollback_funds-books :
        (i : ℕ) (amount : ℤ) (ref : RefId) (currency : ℕ) (key : Option RefId)
        → name_of i ≡ other
        → OnDone (KeepsBooks name_of l) (rollback_funds hash i amount ref currency key l)
    unfolding rollback_funds
    rollback_funds-books i amount ref currency key is_player =
        OnDone-bind (IsNamed l.journals AccountName.reserve) (KeepsBooks name_of l)
          (find_named AccountName.reserve currency l) _ (named AccountName.reserve currency)
          λ pool p.
            OnDone-bind (IsPlayer l.journals i) (KeepsBooks name_of l) (find_account i currency l) _
              (player i currency)
              λ user u.
                let ne =
                  player-apart l.journals i AccountName.reserve user pool is_player (λ e. cc) u p in
                OnDone-bind (KeepsBooks name_of l) (KeepsBooks name_of l)
                  (record_entries hash RefType.rollback ref
                    (record { account = pool; amount = neg amount }
                      ∷ record { account = user; amount = amount }
                      ∷ [])
                    none l)
                  (λ n. done (with_key cancel_step key n))
                  (pair-KeepsBooks RefType.rollback ref none pool user (neg amount) amount p.0 u.0
                    (λ e. ne (sym e)))
                  λ n h. cancel_step-KeepsBooks key l n h

    pub commit_funds-books :
        (ref : RefId) (amount rake_amount : ℤ) (currency : ℕ) (key : Option RefId)
        → OnDone (KeepsBooks name_of l) (commit_funds hash ref amount rake_amount currency key l)
    unfolding commit_funds
    commit_funds-books ref amount rake_amount currency key =
        OnDone-bind (IsNamed l.journals AccountName.reserve) (KeepsBooks name_of l)
          (find_named AccountName.reserve currency l) _ (named AccountName.reserve currency)
          λ pool p.
            OnDone-bind (IsNamed l.journals AccountName.prize) (KeepsBooks name_of l)
              (find_named AccountName.prize currency l) _ (named AccountName.prize currency)
              λ winnings w.
                OnDone-bind (IsNamed l.journals AccountName.rake) (KeepsBooks name_of l)
                  (find_named AccountName.rake currency l) _ (named AccountName.rake currency)
                  λ raked r.
                    let ms =
                      record { account = pool; amount = neg amount }
                      ∷ record { account = winnings; amount = amount -ℤ rake_amount }
                      ∷ record { account = raked; amount = rake_amount }
                      ∷ [] in
                    let pw =
                      named-apart l.journals AccountName.reserve AccountName.prize pool winnings
                        (λ e. cc) p w in
                    let pr =
                      named-apart l.journals AccountName.reserve AccountName.rake pool raked
                        (λ e. cc) p r in
                    let wr =
                      named-apart l.journals AccountName.prize AccountName.rake winnings raked
                        (λ e. cc) w r in
                    OnDone-bind (KeepsBooks name_of l) (KeepsBooks name_of l)
                      (record_entries hash RefType.commit ref ms none l)
                      (λ n. done (with_key settlement_mark key n))
                      (record_entries-KeepsBooks name_of hash RefType.commit ref ms none l sound
                        (p.0, (pw, (pr, tt)), (w.0, (wr, tt), (r.0, tt, tt))))
                      λ n h. settlement_mark-KeepsBooks key l n h
