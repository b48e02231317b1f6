-- ===== src/Table/Types.antt =====
-- The types of `backend/src/game/state-machine.ts`.
-- Player identifiers are only compared and are numbers here. Amounts are whole chips; a negative
-- amount is refused by `placeBet` as zero is.
use pokerhub.Prelude.{Option, List, Bool, refl, ◌≡◌, ℕ, true, false, if◌then◌else◌}

pub data Street : Type 0 where
  preflop flop turn river showdown : Street

pub data Phase : Type 0 where
  wait_blinds deal betting_round showdown_phase settle next_hand : Phase

pub data Action : Type 0 where
  post_blind : ℕ → ℕ → Action
  bet : ℕ → ℕ → Action
  raise : ℕ → ℕ → Action
  call : ℕ → Action
  check : ℕ → Action
  fold : ℕ → Action
  next : Action

pub record Player : Type 0 where
  pub id : ℕ
  pub stack : ℕ
  pub folded : Bool
  pub bet : ℕ
  pub all_in : Bool
  pub hole_cards : Option (List ℕ)

-- `contributions` is an object with player identifiers as its keys.
pub record SidePot : Type 0 where
  pub amount : ℕ
  pub players : List ℕ
  pub contributions : List (ℕ × ℕ)

pub record GameState : Type 0 where
  pub phase : Phase
  pub street : Street
  pub pot : ℕ
  pub side_pots : List SidePot
  pub current_bet : ℕ
  pub players : List Player
  pub deck : List ℕ
  pub community_cards : List ℕ

-- `HandStateMachine`: its state and the set `blindsPosted`.
pub record Machine : Type 0 where
  pub state : GameState
  pub blinds_posted : List ℕ

-- The errors that are thrown. `missing_card` stands for a hole card that `deck.pop()!` reads from an empty
-- deck, which the source stores as `undefined`.
pub data Error : Type 0 where
  invalid_action unknown_player not_positive exceeds_stack already_dealt insufficient_cards
        deck_exhausted missing_card :
      Error

pub data Result {ℓ} (A : Type ℓ) : Type ℓ where
  ok : A → Result A
  err : Error → Result A

infixl 5 ◌>>=◌
abbrev pub ◌>>=◌ {ℓ κ} : {X : Type ℓ} {Y : Type κ} → Result X → (X → Result Y) → Result Y
ok value >>= rest = rest value
err thrown >>= rest = err thrown

-- What holds of a result if it is no error.
abbrev pub OnOk {ℓ κ} : {A : Type ℓ} → (A → Type κ) → Result A → Type κ
OnOk P (ok a) = P a
OnOk P (err e) = Unit

pub OnOk-bind {ℓ κ μ ν} :
    {A : Type ℓ} {B : Type κ} (P : A → Type μ) (Q : B → Type ν) (m : Result A) (f : A → Result B)
    → OnOk P m
    → ((a : A) → P a → OnOk Q (f a))
    → OnOk Q (m >>= f)
OnOk-bind P Q (ok a) f h step = step a h
OnOk-bind P Q (err e) f h step = tt

pub OnOk-if {ℓ κ} :
    {A : Type ℓ} (P : A → Type κ) (b : Bool) (m n : Result A)
    → (b ≡ true → OnOk P m)
    → (b ≡ false → OnOk P n)
    → OnOk P (if b then m else n)
OnOk-if P true m n h k = h refl
OnOk-if P false m n h k = k refl

pub OnOk_elim {ℓ κ} :
    {A : Type ℓ} (P : A → Type κ) (m : Result A) {a : A} → OnOk P m → m ≡ ok a → P a
OnOk_elim P m h e = rw e at h

-- A number for each street, by which streets are compared.
abbrev pub street_number : Street → ℕ
street_number preflop = 0
street_number flop = 1
street_number turn = 2
street_number river = 3
street_number showdown = 4
