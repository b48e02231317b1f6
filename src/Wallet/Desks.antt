-- ===== src/Wallet/Desks.antt =====
-- Proofs about the requests of players.
use pokerhub.Wallet.Bank.{pay_out, Challenge}
use pokerhub.Prelude.Int.{ℤ, pos, ◌≤ℤ◌}
use pokerhub.Wallet.Limits.{CounterKey}
use pokerhub.Wallet.Payments.{lookup_challenge}
use pokerhub.Wallet.Metered.{IsMetered}
use pokerhub.Wallet.Desk.{Limits, granted, Desk, refused, Replied}
use pokerhub.Prelude.{none, some, true, ◌≡◌, ℕ, Bool}
use pokerhub.Wallet.Record.{find_account}
use pokerhub.Wallet.Types.{Account, done}

-- The same money: a request leaves the ledger alone.
abbrev SameLedger : Desk → Desk → Type 0
SameLedger d n = n.bank.ledger ≡ d.bank.ledger

-- What holds of a reply that is granted.
abbrev pub OnGranted : (Desk → ℕ → Type 0) → Replied → Type 0
OnGranted P (d, granted r) = P d r
OnGranted P (d, refused e) = Unit

module _ (P : Desk → ℕ → Type 0) (before : Desk) where
  abbrev IsSafe : Replied → Type 0
  IsSafe r = SameLedger before r.0 × OnGranted P r

module _ (expires : CounterKey → Bool) (limits : Limits) (day : ℕ) where
  -- The challenge that `withdraw` stores.
  abbrev pub withdrawal : ℕ → ℤ → ℕ → Challenge
  withdrawal account amount currency = record {
    op = pay_out;
    account_id = account;
    amount = amount;
    currency = currency;
    device = none;
  }

  -- What a withdrawal that is granted needs, and leaves. Every counter that has a limit has grown by this
  -- request and is within its limit.
  abbrev pub IsAllowed : Bool → Bool → ℕ → ℤ → ℕ → ℕ → ℕ → ℕ → Desk → Desk → ℕ → Type 0
  IsAllowed allowed verified account amount device ip currency challenge d n r =
      (allowed ≡ true)
      × ((a : Account) × find_account account currency d.bank.ledger ≡ done a)
      × (verified ≡ true)
      × (amount ≤ℤ pos 100000)
      × IsMetered limits.velocity limits.daily pay_out day account amount device ip d.meter n.meter
      × (r ≡ challenge)
      × (lookup_challenge challenge n.bank.challenges ≡ some (withdrawal account amount currency))
