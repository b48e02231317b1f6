-- ===== src/Wallet/Charges.antt =====
-- Proofs about `reserve` when two players of one hand lose the same amount.
use pokerhub.Wallet.Types.{
  done, Ledger, RefType, JournalEntry, RefId, Account, AccountName, OnDone_elim,
}
use pokerhub.Prelude.{
  arith, refl, ℕ, Bool, none, any, ◌∷◌, ◌≡◌, [], ◌++◌, true, List, includes, sym, false, ◌∙◌, ap,
  Option,
}
use pokerhub.Prelude.Int.{ℤ}
use pokerhub.Wallet.Record.{
  is_recorded, record_entries, post, find_account, entry_of, post_all, find_named,
}
use pokerhub.Wallet.Sound.{cancels, pair_of}
use pokerhub.Wallet.Hand.{neg, with_key, settlement_reserve, reserve_funds}
use pokerhub.Wallet.Books.{with_key-reserve}

any-snoc :
    (p : JournalEntry → Bool) (js : List JournalEntry) (j : JournalEntry)
    → p j ≡ true
    → any p (js ++ j ∷ []) ≡ true
any-snoc p [] j h = rw h refl
any-snoc p (k ∷ js) j h = rw (any-snoc p js j h) (ground arith)

second_included : (x y z : ℕ) → z ≡ y → includes z (x ∷ y ∷ []) ≡ true
second_included x y z h = ground arith

abbrev SameRows : Ledger → Ledger → Type 0
SameRows l n = (n.accounts ≡ l.accounts) × (n.journals ≡ l.journals)

with_key-SameRows :
    (key : Option RefId) (l : Ledger) → SameRows l (with_key settlement_reserve key l)
with_key-SameRows key l = with_key-reserve (SameRows l) key l (refl, refl) (λ ss. (refl, refl))

module _ (hash : RefType → RefId → ℕ → ℤ → ℕ) (ref : RefId) (amount : ℤ) where
  -- A journal row with the hash of one of the movements.
  pub pool_row-recorded :
      (l : Ledger) (rival pool : Account) (js : List JournalEntry) (j : JournalEntry)
      → l.journals ≡ js ++ j ∷ []
      → j.hash ≡ hash RefType.reserve ref pool.id amount
      → is_recorded hash RefType.reserve ref (pair_of rival pool amount) l ≡ true
  unfolding is_recorded
  pool_row-recorded l rival pool js j e h = rw e (any-snoc _ js j (second_included _ _ _ h))

  pub repeated :
      (rival pool : Account) (l : Ledger)
      → is_recorded hash RefType.reserve ref (pair_of rival pool amount) l ≡ true
      → record_entries hash RefType.reserve ref (pair_of rival pool amount) none l ≡ done l
  unfolding record_entries
  repeated rival pool l h = rw (cancels rival pool amount) (rw h refl)

  -- What the first reservation appends to the journal.
  pub appended :
      (user pool : Account) (l n : Ledger)
      → is_recorded hash RefType.reserve ref (pair_of user pool amount) l ≡ false
      → record_entries hash RefType.reserve ref (pair_of user pool amount) none l ≡ done n
      → (js : List JournalEntry) × (j : JournalEntry) × (n.journals ≡ js ++ j ∷ [])
        × (j.hash ≡ hash RefType.reserve ref pool.id amount)
  unfolding record_entries post_all post
  appended user pool l n fresh e =
      let first =
        entry_of hash RefType.reserve ref none (record { account = user; amount = neg amount }) in
      let second =
        entry_of hash RefType.reserve ref none (record { account = pool; amount = amount }) in
      (
        l.journals ++ first ∷ [],
        second,
        OnDone_elim (λ m. m.journals ≡ (l.journals ++ first ∷ []) ++ second ∷ [])
            (record_entries hash RefType.reserve ref (pair_of user pool amount) none l)
            (rw (cancels user pool amount) (rw fresh refl)) e,
        refl,
      )

  -- `reserve` with the accounts that it finds.
  pub reserve_funds_found :
      (i currency : ℕ) (key : Option RefId) (l : Ledger) {user pool : Account}
      → find_account i currency l ≡ done user
      → find_named AccountName.reserve currency l ≡ done pool
      → reserve_funds hash i amount ref currency key l
        ≡ record_entries hash RefType.reserve ref
            (pair_of user pool amount)
            none
            (with_key settlement_reserve key l)
  unfolding reserve_funds
  reserve_funds_found i currency key l e f = rw (e, f) refl

  -- When `reserve` has newly booked an amount under a reference for one player, `reserve` of the same amount
  -- under the same reference for any other player returns and leaves all accounts and the journal as they
  -- are, if it finds the same reserve account: the second player is not charged.
  pub second_loss_skipped :
      (i j currency : ℕ) (key : Option RefId) (l n : Ledger) {user pool rival again : Account}
      → find_account i currency l ≡ done user
      → find_named AccountName.reserve currency l ≡ done pool
      → is_recorded hash RefType.reserve ref (pair_of user pool amount) l ≡ false
      → reserve_funds hash i amount ref currency key l ≡ done n
      → find_account j currency n ≡ done rival
      → find_named AccountName.reserve currency n ≡ done again
      → again.id ≡ pool.id
      → (m : Ledger) × (reserve_funds hash j amount ref currency key n ≡ done m)
        × (m.accounts ≡ n.accounts)
        × (m.journals ≡ n.journals)
  unfolding is_recorded
  second_loss_skipped i j currency key l n {user} {pool} {rival} {again} found found_pool fresh
        first found_rival found_again same =
      let keyed = with_key settlement_reserve key l in
      let (accounts_same, journals_same) = with_key-SameRows key l in
      let booked : record_entries hash RefType.reserve ref (pair_of user pool amount) none keyed
          ≡ done n =
        sym (reserve_funds_found i currency key l found found_pool) ∙ first in
      let (js, row, e, h) = appended user pool keyed n (rw journals_same fresh) booked in
      let after = with_key settlement_reserve key n in
      let (rows, entries) = with_key-SameRows key n in
      let hit =
        pool_row-recorded after rival again js row (entries ∙ e)
          (h ∙ ap (λ k. hash RefType.reserve ref k amount) (sym same)) in
      (
        after,
        reserve_funds_found j currency key n found_rival found_again
            ∙ repeated rival again after hit,
        rows,
        entries,
      )
