-- ===== src/Tests/Wallet.antt =====
-- Runs of the wallet.
use pokerhub.Wallet.Hand.{reserve_funds, commit_funds, rollback_funds}
use pokerhub.Wallet.Types.{
  JournalEntry, Outcome, hand_step, Ledger, admin_add, RefId, Account, AccountName, done, other,
  RefType, failed, locked, plain, approved, chargeback,
}
use pokerhub.Wallet.Reconcile.{journal_sum, IsReconciled, reconcile}
use pokerhub.Prelude.{
  ◌*◌, ◌≡◌, refl, [], ℕ, ◌∷◌, false, ◌+◌, none, true, if◌then◌else◌, ◌==◌, map, ◌++◌, some,
  includes,
}
use pokerhub.Wallet.Sound.{commit_funds_sound, rollback_funds_sound, reserve_funds_sound}
use pokerhub.Wallet.Record.{find_named, find_account, is_recorded}
use pokerhub.Prelude.Int.{negsuc, pos, ℤ, ◌-ℤ◌, ◌+ℤ◌}
use pokerhub.Wallet.Bank.{DepositStatus, Bank, PendingDeposit, pay_in, find_deposit}
use pokerhub.Wallet.Deposits.{reject_pending_deposit, confirm_pending_deposit, reject_expired}
use pokerhub.Wallet.Decided.{confirm_once}
use pokerhub.Wallet.Rejected.{reject_stands, Reach, here, next, creates, confirms, expires}
use pokerhub.Wallet.Journal.{KeepsBooks}
use pokerhub.Wallet.Losses.{write_hand_ledger}
use pokerhub.Wallet.Charges.{second_loss_skipped}
use pokerhub.Wallet.Payments.{confirm_3ds}
use pokerhub.Wallet.Repeats.{confirm_3ds_once}

-- Accounts 1 to 4 belong to the system, all others to players.
abbrev owner : ℕ → AccountName
owner i =
    if i == 1
    then AccountName.house
    else if i == 2
    then AccountName.reserve
    else if i == 3
    then AccountName.prize
    else if i == 4
    then AccountName.rake
    else other

-- A number for each kind of entry.
abbrev kind : RefType → ℕ
kind RefType.reserve = 1
kind RefType.commit = 2
kind RefType.rollback = 3
kind _ = 4

abbrev digest : RefType → RefId → ℕ → ℤ → ℕ
digest t (plain r) i a = kind t * 10000 + r * 100 + i
digest t (hand_step h s k) i a = kind t * 10000 + h * 100 + i

abbrev account : ℕ → ℤ → Account
account i balance = record {
  id = i;
  name = owner i;
  currency = 0;
  balance = balance;
  credit_balance = pos 0;
  kyc_verified = true;
}

abbrev grant : ℕ → ℤ → JournalEntry
grant i amount = record {
  account_id = i;
  amount = amount;
  currency = 0;
  ref_type = admin_add;
  ref_id = plain 1;
  hash = i;
  provider = none;
}

-- A player was granted 100 by the house.
abbrev books : Ledger
books = record {
  accounts =
      account 7 (pos 100)
      ∷ account 1 (negsuc 99)
      ∷ account 2 (pos 0)
      ∷ account 3 (pos 0)
      ∷ account 4 (pos 0)
      ∷ [];
  journals = grant 7 (pos 100) ∷ grant 1 (negsuc 99) ∷ [];
  settlements = [];
  events = [];
}

books-IsReconciled : IsReconciled owner books
unfolding journal_sum ◌+ℤ◌
books-IsReconciled =
    ((refl, refl), ((refl, refl), ((refl, refl), ((refl, refl), ((refl, refl), tt)))))

reserve_funds_sound_example :
    (n : Ledger) × (reserve_funds digest 7 (pos 30) (plain 5) 0 none books ≡ done n)
    × KeepsBooks owner books n
unfolding find_account find_named
reserve_funds_sound_example =
    reserve_funds_sound owner digest books 7 (pos 30) (plain 5) 0 none books-IsReconciled refl refl
      refl

commit_funds_sound_example :
    (n : Ledger) × (commit_funds digest (plain 5) (pos 30) (pos 1) 0 none books ≡ done n)
    × KeepsBooks owner books n
unfolding find_account find_named
commit_funds_sound_example =
    commit_funds_sound owner digest books (plain 5) (pos 30) (pos 1) 0 none books-IsReconciled refl
      refl refl

rollback_funds_sound_example :
    (n : Ledger) × (rollback_funds digest 7 (pos 30) (plain 5) 0 none books ≡ done n)
    × KeepsBooks owner books n
unfolding find_account find_named
rollback_funds_sound_example =
    rollback_funds_sound owner digest books 7 (pos 30) (plain 5) 0 none books-IsReconciled refl refl
      refl

abbrev transfer_in : PendingDeposit
transfer_in = record {
  id = 9;
  user_id = 7;
  amount = pos 40;
  currency = 0;
  status = DepositStatus.pending;
  action_required = false;
  expires_at = 50;
  confirmed_by = none;
  confirmed_at = none;
  rejected_by = none;
  rejected_at = none;
  rejection_reason = none;
}

abbrev bank : Bank
bank = record {
  ledger = books;
  deposits = transfer_in ∷ [];
  disbursements = [];
  webhooks = [];
  challenges = [];
  locks = [];
  queued = [];
  notices = [];
}

abbrev bank_of : Outcome Bank → Bank
bank_of (done b) = b
bank_of (failed e) = bank

abbrev confirmed_bank : Bank
confirmed_bank = bank_of (confirm_pending_deposit digest 9 3 20 bank)

abbrev rejected_bank : Bank
rejected_bank = bank_of (reject_pending_deposit 9 3 none 20 bank)

confirm_credits :
    confirmed_bank.ledger.accounts
    ≡ account 7 (pos 140)
      ∷ account 1 (negsuc 139)
      ∷ account 2 (pos 0)
      ∷ account 3 (pos 0)
      ∷ account 4 (pos 0)
      ∷ []
unfolding ◌+ℤ◌ ◌-ℤ◌ confirm_pending_deposit
confirm_credits = refl

confirm_once_example :
    (confirm_pending_deposit digest 9 4 30 confirmed_bank ≡ done confirmed_bank)
    × (reject_pending_deposit 9 4 none 30 confirmed_bank ≡ done confirmed_bank)
unfolding confirm_pending_deposit ◌+ℤ◌ ◌-ℤ◌
confirm_once_example = confirm_once digest 9 3 20 4 30 none bank confirmed_bank refl

-- After the rejection a deposit 10 is made and confirmed, and the expired ones are rejected.
abbrev second_transfer : PendingDeposit
second_transfer = record transfer_in { id = 10 }

abbrev with_second : Bank
with_second = record rejected_bank { deposits = rejected_bank.deposits ++ second_transfer ∷ [] }

abbrev second_confirmed : Bank
second_confirmed = bank_of (confirm_pending_deposit digest 10 3 30 with_second)

abbrev late_bank : Bank
late_bank = bank_of (reject_expired 90 second_confirmed)

rejected_then : Reach digest rejected_bank late_bank
unfolding confirm_pending_deposit reject_expired ◌+ℤ◌ ◌-ℤ◌
rejected_then =
    next (next (next here (creates second_transfer)) (confirms 10 3 30 refl)) (expires 90 refl)

second_credited :
    map (λ a. a.balance) late_bank.ledger.accounts
    ≡ pos 140 ∷ negsuc 139 ∷ pos 0 ∷ pos 0 ∷ pos 0 ∷ []
unfolding confirm_pending_deposit reject_expired reject_pending_deposit ◌+ℤ◌ ◌-ℤ◌
second_credited = refl

reject_stands_example :
    ((e : PendingDeposit) × (find_deposit 9 late_bank ≡ some e)
      × (e.status ≡ DepositStatus.rejected))
    × (confirm_pending_deposit digest 9 4 95 late_bank
        ≡ (if includes 9 late_bank.locks then failed locked else done late_bank))
    × (reject_pending_deposit 9 4 none 95 late_bank
        ≡ (if includes 9 late_bank.locks then failed locked else done late_bank))
unfolding reject_pending_deposit
reject_stands_example =
    reject_stands digest 9 3 20 4 95 none none bank rejected_bank late_bank refl refl refl
      rejected_then

-- An account whose balance does not match its journal is reported.
reports_mismatch :
    reconcile (record books { accounts = account 7 (pos 99) ∷ [] })
    ≡ record { account = other; balance = pos 99; journal = pos 100 } ∷ []
unfolding reconcile ◌+ℤ◌
reports_mismatch = refl

-- Two players with 100 each.
abbrev two_players : Ledger
two_players = record books {
  accounts =
      account 8 (pos 100)
      ∷ account 7 (pos 100)
      ∷ account 1 (negsuc 99)
      ∷ account 2 (pos 0)
      ∷ account 3 (pos 0)
      ∷ account 4 (pos 0)
      ∷ [];
}

abbrev ledger_of : Outcome Ledger → Ledger
ledger_of (done l) = l
ledger_of (failed e) = books

abbrev once_reserved : Ledger
once_reserved = ledger_of (reserve_funds digest 7 (pos 30) (plain 5) 0 none two_players)

second_loss_skipped_example :
    (m : Ledger) × (reserve_funds digest 8 (pos 30) (plain 5) 0 none once_reserved ≡ done m)
    × (m.accounts ≡ once_reserved.accounts)
    × (m.journals ≡ once_reserved.journals)
unfolding find_account find_named is_recorded reserve_funds ◌+ℤ◌ ◌-ℤ◌
second_loss_skipped_example =
    second_loss_skipped digest (plain 5) (pos 30) 7 8 0 none two_players once_reserved refl refl
      refl refl refl refl refl

-- Two players lose 30 each: one of them is charged, and 60 leaves the reserve account.
losses_of_two :
    (ledger_of (
      write_hand_ledger digest
        (plain 5)
        0
        (record { player_id = 7; delta = negsuc 29 }
          ∷ record { player_id = 8; delta = negsuc 29 }
          ∷ [])
        two_players)).accounts
    ≡ account 8 (pos 100)
      ∷ account 7 (pos 70)
      ∷ account 1 (negsuc 99)
      ∷ account 2 (negsuc 29)
      ∷ account 3 (pos 60)
      ∷ account 4 (pos 0)
      ∷ []
unfolding write_hand_ledger ◌+ℤ◌ ◌-ℤ◌
losses_of_two = refl

-- A card payment of 40 that waits for its webhook.
abbrev waiting : Bank
waiting = record bank {
  challenges =
      (1, record { op = pay_in; account_id = 7; amount = pos 40; currency = 0; device = none })
      ∷ [];
}

abbrev paid_bank : Bank
paid_bank = bank_of (confirm_3ds digest 77 1 approved 6 61 62 waiting)

payment_credits :
    map (λ a. a.balance) paid_bank.ledger.accounts
    ≡ pos 140 ∷ negsuc 139 ∷ pos 0 ∷ pos 0 ∷ pos 0 ∷ []
unfolding confirm_3ds ◌+ℤ◌ ◌-ℤ◌
payment_credits = refl

confirm_3ds_once_example : confirm_3ds digest 77 1 chargeback 7 71 72 paid_bank ≡ done paid_bank
unfolding confirm_3ds ◌+ℤ◌ ◌-ℤ◌
confirm_3ds_once_example =
    confirm_3ds_once digest 77 1 1 6 61 62 7 71 72 approved chargeback waiting paid_bank refl
