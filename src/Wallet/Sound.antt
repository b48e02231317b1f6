-- ===== src/Wallet/Sound.antt =====
-- Proofs about the results of `reserve`, `commit` and `rollback`.
use pokerhub.Prelude.{◌≡◌, Option, List, inl, ◌∷◌, Bool-cases, ℕ, true, [], inr, refl, none}
use pokerhub.Wallet.Record.{sum_movements, record_entries, is_recorded, find_named, find_account}
use pokerhub.Wallet.Types.{
  RefId, done, RefType, Ledger, Account, Movement, ProviderStatus, OnDone_elim, Outcome, OnDone,
  AccountName, other,
}
use pokerhub.Prelude.Int.{◌-ℤ◌, eqb_ℤ, ℤ, int_laws, eqb-self_ℤ, pos}
use pokerhub.Wallet.Hand.{
  neg, reserve_funds, settlement_reserve, with_key, commit_funds, rollback_funds,
}
use pokerhub.Wallet.Books.{reserve_funds-books, commit_funds-books, rollback_funds-books}
use pokerhub.Wallet.Journal.{KeepsBooks}
use pokerhub.Wallet.Reconcile.{IsReconciled}

-- `record` returns if its movements add up to nothing.
pub record_entries-returns :
    (hash : RefType → RefId → ℕ → ℤ → ℕ) (t : RefType) (r : RefId) (ms : List Movement)
    (provider : Option (ℕ × ProviderStatus)) (l : Ledger)
    → eqb_ℤ (sum_movements ms) (pos 0) ≡ true
    → (n : Ledger) × record_entries hash t r ms provider l ≡ done n
unfolding record_entries
record_entries-returns hash t r ms provider l h =
    rw h (elim (Bool-cases (is_recorded hash t r ms l)) [
      | inl old ↦ rw old (l, refl)
      | inr new ↦ rw new (_, refl)
    ])

-- The movements of `reserve` and `rollback`, and those of `commit`.
abbrev pub pair_of : Account → Account → ℤ → List Movement
pair_of a b x = record { account = a; amount = neg x } ∷ record { account = b; amount = x } ∷ []

abbrev pub split_of : Account → Account → Account → ℤ → ℤ → List Movement
split_of a b c x y =
    record { account = a; amount = neg x }
    ∷ record { account = b; amount = x -ℤ y }
    ∷ record { account = c; amount = y }
    ∷ []

pub cancels : (a b : Account) (x : ℤ) → eqb_ℤ (sum_movements (pair_of a b x)) (pos 0) ≡ true
unfolding sum_movements
cancels a b x = eqb-self_ℤ (sum_movements (pair_of a b x)) (pos 0) (omega int_laws)

pub splits : (a b c : Account) (x y : ℤ) → eqb_ℤ (sum_movements (split_of a b c x y)) (pos 0) ≡ true
unfolding sum_movements
splits a b c x y = eqb-self_ℤ (sum_movements (split_of a b c x y)) (pos 0) (omega int_laws)

module _ (hash : RefType → RefId → ℕ → ℤ → ℕ) (l : Ledger) where
  abbrev pub Returns : Outcome Ledger → Type 0
  Returns o = (n : Ledger) × (o ≡ done n)

  reserve_funds-Returns :
      (i : ℕ) (amount : ℤ) (ref : RefId) (currency : ℕ) (key : Option RefId) {user pool : Account}
      → find_account i currency l ≡ done user
      → find_named AccountName.reserve currency l ≡ done pool
      → Returns (reserve_funds hash i amount ref currency key l)
  unfolding reserve_funds
  reserve_funds-Returns i amount ref currency key {user} {pool} e f =
      rw (e, f)
        (record_entries-returns hash RefType.reserve ref (pair_of user pool amount) none
          (with_key settlement_reserve key l) (cancels user pool amount))

  commit_funds-Returns :
      (ref : RefId) (amount rake_amount : ℤ) (currency : ℕ) (key : Option RefId)
      {pool winnings raked : Account}
      → find_named AccountName.reserve currency l ≡ done pool
      → find_named AccountName.prize currency l ≡ done winnings
      → find_named AccountName.rake currency l ≡ done raked
      → Returns (commit_funds hash ref amount rake_amount currency key l)
  unfolding commit_funds
  commit_funds-Returns ref amount rake_amount currency key {pool} {winnings} {raked} e f g =
      let (n, h) =
        record_entries-returns hash RefType.commit ref
          (split_of pool winnings raked amount rake_amount) none l
          (splits pool winnings raked amount rake_amount) in
      rw (e, f, g) (rw h (_, refl))

  rollback_funds-Returns :
      (i : ℕ) (amount : ℤ) (ref : RefId) (currency : ℕ) (key : Option RefId) {user pool : Account}
      → find_account i currency l ≡ done user
      → find_named AccountName.reserve currency l ≡ done pool
      → Returns (rollback_funds hash i amount ref currency key l)
  unfolding rollback_funds
  rollback_funds-Returns i amount ref currency key {user} {pool} e f =
      let (n, h) =
        record_entries-returns hash RefType.rollback ref (pair_of pool user amount) none l
          (cancels pool user amount) in
      rw (e, f) (rw h (_, refl))

module _ (name_of : ℕ → AccountName) (hash : RefType → RefId → ℕ → ℤ → ℕ) (l : Ledger) where
  -- A result that is known to be returned keeps the books.
  abbrev pub ReturnsSound : Outcome Ledger → Type 0
  ReturnsSound o = (n : Ledger) × (o ≡ done n) × KeepsBooks name_of l n

  with_books :
      (o : Outcome Ledger)
      → OnDone (KeepsBooks name_of l) o
      → (n : Ledger) × o ≡ done n
      → ReturnsSound o
  with_books o h (n, e) = (n, e, OnDone_elim (KeepsBooks name_of l) o h e)

  -- `reserve` of funds on an account that is no system account returns if that account and the reserve
  -- account exist in the currency. On a ledger in which each balance is the sum of the account's journal
  -- entries, the result is such a ledger, and the sum of the whole journal is unchanged.
  pub reserve_funds_sound :
      (i : ℕ) (amount : ℤ) (ref : RefId) (currency : ℕ) (key : Option RefId) {user pool : Account}
      → IsReconciled name_of l
      → name_of i ≡ other
      → find_account i currency l ≡ done user
      → find_named AccountName.reserve currency l ≡ done pool
      → (n : Ledger) × (reserve_funds hash i amount ref currency key l ≡ done n)
        × KeepsBooks name_of l n
  reserve_funds_sound i amount ref currency key {user} {pool} sound player found found_pool =
      with_books (reserve_funds hash i amount ref currency key l)
        (reserve_funds-books name_of hash l sound i amount ref currency key player)
        (reserve_funds-Returns hash l i amount ref currency key found found_pool)

  -- `commit` returns if the reserve, prize and rake accounts of the currency exist, and keeps the books as
  -- `reserve` does.
  pub commit_funds_sound :
      (ref : RefId) (amount rake_amount : ℤ) (currency : ℕ) (key : Option RefId)
      {pool winnings raked : Account}
      → IsReconciled name_of l
      → find_named AccountName.reserve currency l ≡ done pool
      → find_named AccountName.prize currency l ≡ done winnings
      → find_named AccountName.rake currency l ≡ done raked
      → (n : Ledger) × (commit_funds hash ref amount rake_amount currency key l ≡ done n)
        × KeepsBooks name_of l n
  commit_funds_sound ref amount rake_amount currency key {pool} {winnings} {raked} sound found_pool
        found_prize found_rake =
      with_books (commit_funds hash ref amount rake_amount currency key l)
        (commit_funds-books name_of hash l sound ref amount rake_amount currency key)
        (commit_funds-Returns hash l ref amount rake_amount currency key found_pool found_prize
          found_rake)

  -- `rollback` returns if the reserve account and the player's account exist in the currency, and keeps
  -- the books as `reserve` does.
  pub rollback_funds_sound :
      (i : ℕ) (amount : ℤ) (ref : RefId) (currency : ℕ) (key : Option RefId) {user pool : Account}
      → IsReconciled name_of l
      → name_of i ≡ other
      → find_account i currency l ≡ done user
      → find_named AccountName.reserve currency l ≡ done pool
      → (n : Ledger) × (rollback_funds hash i amount ref currency key l ≡ done n)
        × KeepsBooks name_of l n
  rollback_funds_sound i amount ref currency key {user} {pool} sound player found found_pool =
      with_books (rollback_funds hash i amount ref currency key l)
        (rollback_funds-books name_of hash l sound i amount ref currency key player)
        (rollback_funds-Returns hash l i amount ref currency key found found_pool)
