-- ===== src/Tests/Engine.antt =====
-- A hand of the engine, and its replay.
use pokerhub.Engine.Replay.{created, apply_each-Played, Chains, Played}
use pokerhub.Engine.Run.{Engine, Config, new_engine, apply_each, replay_hand, new_player}
use pokerhub.Table.Types.{
  bet, err, raise, Result, settle, fold, Action, ok, Phase, post_blind, next, call, Player, Street,
}
use pokerhub.Prelude.{◌≡◌, refl, map, List, Option, some, ◌∷◌, [], ℕ, length, ◌*◌, ◌+◌, none, true}
use pokerhub.Wallet.Types.{
  plain, Outcome, RefId, failed, AccountName, RefType, hand_step, other, done, Account, Ledger,
}
use pokerhub.Engine.Hand.{log-Chains, replay_agrees}
use pokerhub.Prelude.Int.{ℤ, ◌+ℤ◌, ◌-ℤ◌, pos, pos_part, neg_part, negsuc}
use pokerhub.Engine.Views.{with_other_cards, sanitize, sanitize_hides}
use pokerhub.Engine.Funds.{reserve_stacks, settle_funds}
use pokerhub.Wallet.Record.{find_account, is_recorded, find_named}
use pokerhub.Engine.Stacks.{only_first_charged}
use pokerhub.Wallet.Hand.{reserve_funds}

abbrev in_order : List ℕ → List (Option ℕ)
in_order cards = map some cards

abbrev stakes : Config
stakes = record { starting_stack = 100; small_blind = 1; big_blind = 2 }

abbrev fresh_engine : Engine
fresh_engine = new_engine stakes 5 (1 ∷ 2 ∷ [])

-- Blinds, a raise that is called, a flop, and a fold that ends the hand.
abbrev short_hand : List Action
short_hand =
    post_blind 1 1
    ∷ post_blind 2 2
    ∷ next
    ∷ raise 1 10
    ∷ call 2
    ∷ next
    ∷ next
    ∷ bet 1 20
    ∷ fold 2
    ∷ []

abbrev engine_of : Result Engine → Engine
engine_of (ok e) = e
engine_of (err _) = fresh_engine

abbrev played : Engine
played = engine_of (apply_each in_order short_hand fresh_engine)

abbrev outcome : Phase × List ℕ × ℕ
outcome = (
  played.machine.state.phase,
  map (λ p. p.stack) played.machine.state.players,
  length played.log.entries,
)

fold_ends_hand : outcome ≡ (settle, 111 ∷ 89 ∷ [], 9)
unfolding apply_each new_engine ◌-ℤ◌
fold_ends_hand = refl

run_accepted : apply_each in_order short_hand fresh_engine ≡ ok played
unfolding apply_each new_engine ◌-ℤ◌
run_accepted = refl

was_played : Played in_order fresh_engine played
was_played =
    apply_each-Played in_order short_hand fresh_engine fresh_engine played created run_accepted

replay_agrees_example : replay_hand in_order stakes 6 played ≡ ok played.machine.state
replay_agrees_example = replay_agrees in_order stakes 5 6 (1 ∷ 2 ∷ []) played was_played

log-Chains_example : Chains fresh_engine.machine.state 0 played.log.entries played.machine.state
log-Chains_example = log-Chains in_order stakes 5 (1 ∷ 2 ∷ []) played was_played

sanitize_hides_example :
    sanitize (some 1) (record played.machine.state {
      players = map (with_other_cards (some 1) (λ p. none)) played.machine.state.players;
      deck = [];
    })
    ≡ sanitize (some 1) played.machine.state
sanitize_hides_example = sanitize_hides (some 1) played.machine.state (λ p. none) []

-- Two players with 100 each, at a table of 2 and a player with other stacks.
abbrev account : ℕ → AccountName → ℤ → Account
account i name balance = record {
  id = i;
  name = name;
  currency = 0;
  balance = balance;
  credit_balance = pos 0;
  kyc_verified = true;
}

abbrev kind : RefType → ℕ
kind RefType.reserve = 1
kind RefType.commit = 2
kind RefType.rollback = 3
kind _ = 4

abbrev ref_number : RefId → ℕ
ref_number (plain r) = r * 10
ref_number (hand_step h s i) = h * 10 + 1 + i

abbrev digest : RefType → RefId → ℕ → ℤ → ℕ
digest t r i a = kind t * 1000000 + ref_number r * 10000 + i * 1000 + pos_part a + 500 * neg_part a

abbrev wallets : Ledger
wallets = record {
  accounts =
      account 1 other (pos 100)
      ∷ account 2 other (pos 100)
      ∷ account 5 AccountName.reserve (pos 0)
      ∷ account 6 AccountName.prize (pos 0)
      ∷ account 7 AccountName.rake (pos 0)
      ∷ [];
  journals = [];
  settlements = [];
  events = [];
}

abbrev ledger_of : Outcome Ledger → Ledger
ledger_of (done l) = l
ledger_of (failed e) = wallets

abbrev seated : List Player
seated = map (new_player stakes) (1 ∷ 2 ∷ [])

abbrev after_reserve : Ledger
after_reserve = ledger_of (reserve_stacks digest 3 0 seated wallets)

first_is_charged :
    map (λ a. a.balance) after_reserve.accounts ≡ pos 0 ∷ pos 100 ∷ pos 100 ∷ pos 0 ∷ pos 0 ∷ []
unfolding reserve_stacks ◌+ℤ◌ ◌-ℤ◌
first_is_charged = refl

only_first_charged_example : reserve_stacks digest 3 0 seated wallets ≡ done after_reserve
unfolding reserve_funds reserve_stacks find_account find_named is_recorded ◌+ℤ◌ ◌-ℤ◌
only_first_charged_example =
    only_first_charged digest 3 0 100 (new_player stakes 1) (new_player stakes 2 ∷ []) wallets
      after_reserve refl refl refl refl refl refl refl
      ((refl, (account 2 other (pos 100), refl)), tt)

-- The first player wins 11 from the second.
abbrev after_settle : Ledger
after_settle = ledger_of (
    settle_funds digest 3 0 Street.flop ((1, 100) ∷ (2, 100) ∷ [])
      (record { player_id = 1; delta = pos 11 } ∷ record { player_id = 2; delta = negsuc 10 } ∷ [])
      after_reserve)

abbrev final_balances : List ℤ
final_balances = map (λ a. a.balance) after_settle.accounts

winner_gains_nothing : final_balances ≡ pos 100 ∷ pos 178 ∷ negsuc 99 ∷ pos 22 ∷ pos 0 ∷ []
unfolding reserve_stacks settle_funds ◌+ℤ◌ ◌-ℤ◌
winner_gains_nothing = refl
