-- ===== src/Wallet/Types.antt =====
-- The entities of the wallet, and its database as lists of rows.
-- Identifiers and currencies are only compared and are numbers; amounts are whole minor units with a
-- sign. `provider` stands for `providerTxnId` and `providerStatus`.

use pokerhub.Table.Types.{Street}
use pokerhub.Prelude.{Option, List, Bool, false, true, ℕ, ◌≡◌, if◌then◌else◌, refl}
use pokerhub.Prelude.Int.{ℤ}

pub data AccountName : Type 0 where
  house reserve prize rake other : AccountName

abbrev pub same_name : AccountName → AccountName → Bool
same_name house house = true
same_name reserve reserve = true
same_name prize prize = true
same_name rake rake = true
same_name other other = true
same_name _ _ = false

pub record Account : Type 0 where
  pub id : ℕ
  pub name : AccountName
  pub currency : ℕ
  pub balance : ℤ
  pub credit_balance : ℤ
  pub kyc_verified : Bool

pub data RefType : Type 0 where
  reserve commit rollback withdraw_reject deposit withdraw payout admin_add admin_remove : RefType

-- `handId`, or `${handId}#${street}#${idx}`; other references are plain too.
pub data RefId : Type 0 where
  plain : ℕ → RefId
  hand_step : ℕ → Street → ℕ → RefId

pub data ProviderStatus : Type 0 where
  approved risky chargeback : ProviderStatus

pub record JournalEntry : Type 0 where
  pub account_id : ℕ
  pub amount : ℤ
  pub currency : ℕ
  pub ref_type : RefType
  pub ref_id : RefId
  pub hash : ℕ
  pub provider : Option (ℕ × ProviderStatus)

-- `Movement`: the account as it was read, and the amount.
pub record Movement : Type 0 where
  pub account : Account
  pub amount : ℤ

pub data SettlementStatus : Type 0 where
  reserved committed : SettlementStatus

pub record Settlement : Type 0 where
  pub key : RefId
  pub status : SettlementStatus

pub data Event : Type 0 where
  credit debit : ℕ → ℤ → Event
  notify : ℕ → ℤ → Event

pub record Ledger : Type 0 where
  pub accounts : List Account
  pub journals : List JournalEntry
  pub settlements : List Settlement
  pub events : List Event

pub data WalletError : Type 0 where
  unbalanced not_found locked : WalletError

pub data Outcome {ℓ} (A : Type ℓ) : Type ℓ where
  done : A → Outcome A
  failed : WalletError → Outcome A

infixl 5 ◌>>=◌
abbrev pub ◌>>=◌ {ℓ κ} : {X : Type ℓ} {Y : Type κ} → Outcome X → (X → Outcome Y) → Outcome Y
done value >>= rest = rest value
failed reason >>= rest = failed reason

-- What holds of a result if it is no error.
abbrev pub OnDone {ℓ κ} : {A : Type ℓ} → (A → Type κ) → Outcome A → Type κ
OnDone P (done a) = P a
OnDone P (failed e) = Unit

pub OnDone-bind {ℓ κ μ ν} :
    {A : Type ℓ} {B : Type κ} (P : A → Type μ) (Q : B → Type ν) (m : Outcome A) (f : A → Outcome B)
    → OnDone P m
    → ((a : A) → P a → OnDone Q (f a))
    → OnDone Q (m >>= f)
OnDone-bind P Q (done a) f h step = step a h
OnDone-bind P Q (failed e) f h step = tt

pub OnDone_elim {ℓ κ} :
    {A : Type ℓ} (P : A → Type κ) (m : Outcome A) {a : A} → OnDone P m → m ≡ done a → P a
OnDone_elim P m h e = rw e at h

pub OnDone-if {ℓ κ} :
    {A : Type ℓ} (P : A → Type κ) (b : Bool) (m n : Outcome A)
    → (b ≡ true → OnDone P m)
    → (b ≡ false → OnDone P n)
    → OnDone P (if b then m else n)
OnDone-if P true m n h k = h refl
OnDone-if P false m n h k = k refl

pub any_result {ℓ} : {A : Type ℓ} (m : Outcome A) → OnDone (λ _. Unit {0}) m
any_result (done a) = tt
any_result (failed e) = tt
