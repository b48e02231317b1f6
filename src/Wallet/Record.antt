-- ===== src/Wallet/Record.antt =====
-- `WalletService.record`. The SHA-256 of reference type, reference, account and amount is the
-- parameter `hash`. Calls do not interleave here.
use pokerhub.Wallet.Types.{
  debit, Movement, RefType, Account, Ledger, unbalanced, failed, ProviderStatus, RefId, AccountName,
  not_found, other, Outcome, Event, same_name, credit, done, notify, JournalEntry,
}
use pokerhub.Prelude.Int.{◌-ℤ◌, ◌+ℤ◌, ltb_ℤ, eqb_ℤ, pos, ℤ}
use pokerhub.Prelude.{
  false, ◌&&◌, map, find, any, if◌then◌else◌, includes, List, ◌==◌, some, [], Bool, Option, ◌∷◌,
  true, ℕ, ◌++◌, none,
}

-- `findOneByOrFail({ id, currency })`
unfoldable pub find_account : ℕ → ℕ → Ledger → Outcome Account
find_account i currency l = elim (find (λ a. a.id == i && a.currency == currency) l.accounts) [
  | none ↦ failed not_found
  | some a ↦ done a
]

-- `findOneByOrFail({ name, currency })`
unfoldable pub find_named : AccountName → ℕ → Ledger → Outcome Account
find_named name currency l =
    elim (find (λ a. same_name a.name name && a.currency == currency) l.accounts) [
      | none ↦ failed not_found
      | some a ↦ done a
    ]

-- `manager.save(Account, account)`: the row with its identifier is overwritten.
unfoldable pub save_account : Account → List Account → List Account
save_account a [] = []
save_account a (b ∷ rows) = (if b.id == a.id then a else b) ∷ save_account a rows

unfoldable pub sum_movements : List Movement → ℤ
sum_movements [] = pos 0
sum_movements (m ∷ ms) = m.amount +ℤ sum_movements ms

-- The default of `SYSTEM_ACCOUNTS`.
abbrev pub is_system : AccountName → Bool
is_system other = false
is_system _ = true

-- `Math.abs`
unfoldable pub abs : ℤ → ℤ
abs a = if ltb_ℤ a (pos 0) then pos 0 -ℤ a else a

-- The events of one movement.
unfoldable pub movement_events : Movement → List Event
unfolding abs
movement_events m =
    let notice = if is_system m.account.name then [] else notify m.account.id m.amount ∷ [] in
    if ltb_ℤ (pos 0) m.amount
    then credit m.account.id (abs m.amount) ∷ notice
    else debit m.account.id (abs m.amount) ∷ notice

unfoldable pub all_events : List Movement → List Event
unfolding movement_events
all_events [] = []
all_events (m ∷ ms) = movement_events m ++ all_events ms

module _ (hash : RefType → RefId → ℕ → ℤ → ℕ) where
  abbrev pub entry_hash : RefType → RefId → Movement → ℕ
  entry_hash t r m = hash t r m.account.id m.amount

  abbrev pub entry_of : RefType → RefId → Option (ℕ × ProviderStatus) → Movement → JournalEntry
  entry_of t r provider m = record {
    account_id = m.account.id;
    amount = m.amount;
    currency = m.account.currency;
    ref_type = t;
    ref_id = r;
    hash = entry_hash t r m;
    provider = provider;
  }

  -- The body of the transaction's loop: one journal row, and the account with its new balance.
  unfoldable pub post : RefType → RefId → Option (ℕ × ProviderStatus) → Movement → Ledger → Ledger
  unfolding save_account
  post t r provider m l = record l {
    journals = l.journals ++ entry_of t r provider m ∷ [];
    accounts =
        save_account (record m.account { balance = m.account.balance +ℤ m.amount }) l.accounts;
  }

  unfoldable pub post_all :
      RefType → RefId → Option (ℕ × ProviderStatus) → List Movement → Ledger → Ledger
  unfolding post
  post_all t r provider [] l = l
  post_all t r provider (m ∷ ms) l = post_all t r provider ms (post t r provider m l)

  -- `journals.find({ where: { hash: In(hashes) } })` finds a row.
  unfoldable pub is_recorded : RefType → RefId → List Movement → Ledger → Bool
  is_recorded t r ms l = any (λ j. includes j.hash (map (entry_hash t r) ms)) l.journals

  unfoldable pub record_entries :
      RefType → RefId → List Movement → Option (ℕ × ProviderStatus) → Ledger → Outcome Ledger
  unfolding sum_movements is_recorded post_all all_events
  record_entries t r ms provider l =
      let posted = post_all t r provider ms l in
      if eqb_ℤ (sum_movements ms) (pos 0)
      then if is_recorded t r ms l
        then done l
        else done (record posted { events = posted.events ++ all_events ms })
      else failed unbalanced
