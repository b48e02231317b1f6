-- ===== src/Tests/Hand.antt =====
-- A hand at its showdown, with a side pot both of whose players have folded.
use pokerhub.Table.Types.{
  SidePot, showdown_phase, Player, settle, Phase, flop, Machine, ok, next, betting_round, GameState,
}
use pokerhub.Table.Settle.{contenders_of, pots_of, settle_pots}
use pokerhub.Prelude.{
  ◌+◌, map, true, refl, Option, some, ℕ, none, List, false, ◌∷◌, [], ◌≡◌, Bool, ◌++◌, sum_by,
}
use pokerhub.Table.Chips.Step.{apply-chips}
use pokerhub.Table.Chips.Sums.{side_total, bets, chips, stacks}
use pokerhub.Table.Chips.Payout.{unclaimed, settle_pots-stacks}
use pokerhub.Table.Chips.Phases.{lost}
use pokerhub.Table.Step.{apply}
use pokerhub.Table.Chips.Levels.{finish_betting_round-funds}
use pokerhub.Table.Round.{finish_betting_round}
use pokerhub.Table.Chips.Dealing.{IsSound}
use pokerhub.Table.Deltas.{record_deltas, start_of, sum_deltas, record_deltas_sum}
use pokerhub.Prelude.Int.{◌-ℤ◌, negsuc, pos}

abbrev in_order : List ℕ → List (Option ℕ)
in_order cards = map some cards

abbrev seat : ℕ → ℕ → Bool → ℕ → Player
seat i chips_left out committed = record {
  id = i;
  stack = chips_left;
  folded = out;
  bet = committed;
  all_in = false;
  hole_cards = none;
}

abbrev pot_of : ℕ → List ℕ → SidePot
pot_of n ids = record { amount = n; players = ids; contributions = [] }

abbrev state_of : Phase → ℕ → List SidePot → List Player → GameState
state_of phase pot pots players = record {
  phase = phase;
  street = flop;
  pot = pot;
  side_pots = pots;
  current_bet = 0;
  players = players;
  deck = [];
  community_cards = [];
}

-- Players 1 and 2 folded after building a side pot of 20 that the third, all in, has no part of.
abbrev before : Machine
before = record {
  state =
      state_of showdown_phase 50 (pot_of 30 (1 ∷ 2 ∷ 3 ∷ []) ∷ pot_of 20 (1 ∷ 2 ∷ []) ∷ [])
        (seat 1 40 true 0 ∷ seat 2 40 true 0 ∷ seat 3 0 false 0 ∷ []);
  blinds_posted = [];
}

abbrev after : Machine
after = record {
  state = state_of settle 0 [] (seat 1 40 true 0 ∷ seat 2 40 true 0 ∷ seat 3 30 false 0 ∷ []);
  blinds_posted = [];
}

showdown_step : apply in_order next before ≡ ok after
unfolding apply
showdown_step = refl

apply-chips_example :
    IsSound after.state × (chips after.state + lost before.state ≡ chips before.state)
apply-chips_example = apply-chips in_order next before after (refl, λ e. refl) showdown_step

forfeit_is_lost : lost before.state ≡ 20
unfolding pots_of contenders_of
forfeit_is_lost = refl

settle_pots-stacks_example :
    (stacks (settle_pots before.state).players
        + unclaimed (pots_of before.state) before.state.players
      ≡ stacks before.state.players + side_total (pots_of before.state))
    × ((settle_pots before.state).pot ≡ 0)
    × ((settle_pots before.state).side_pots ≡ [])
settle_pots-stacks_example = settle_pots-stacks before.state refl

-- Bets of 10, 25 and 25, the last of a player who folded.
abbrev betting : GameState
betting =
    state_of betting_round 60 [] (seat 1 0 false 10 ∷ seat 2 75 false 25 ∷ seat 3 75 true 25 ∷ [])

abbrev settled_pots : List SidePot
settled_pots =
    record { amount = 30; players = 1 ∷ 2 ∷ []; contributions = (1, 10) ∷ (2, 10) ∷ (3, 10) ∷ [] }
    ∷ record { amount = 30; players = 2 ∷ []; contributions = (2, 15) ∷ (3, 15) ∷ [] }
    ∷ []

side_pots_of_round : (finish_betting_round betting).side_pots ≡ settled_pots
unfolding finish_betting_round
side_pots_of_round = refl

finish_betting_round-funds_example :
    (side_total (finish_betting_round betting).side_pots
      ≡ side_total betting.side_pots + bets betting.players)
    × (bets (finish_betting_round betting).players ≡ 0)
    × (stacks (finish_betting_round betting).players ≡ stacks betting.players)
    × ((finish_betting_round betting).pot ≡ betting.pot)
finish_betting_round-funds_example = finish_betting_round-funds betting

-- What the players of `after` had at the start; the third is not listed.
abbrev starts : List (ℕ × ℕ)
starts = (1, 50) ∷ (2, 50) ∷ []

deltas_of_three :
    map (λ e. e.delta) (record_deltas after.state starts []).0 ≡ negsuc 9 ∷ negsuc 9 ∷ pos 30 ∷ []
unfolding record_deltas ◌-ℤ◌
deltas_of_three = refl

record_deltas_sum_example :
    (sum_deltas (record_deltas after.state starts []).0
      ≡ pos (sum_by (λ p. p.stack) after.state.players)
        -ℤ pos (sum_by (start_of starts) after.state.players))
    × ((record_deltas after.state starts []).1 ≡ [] ++ (record_deltas after.state starts []).0)
record_deltas_sum_example = record_deltas_sum after.state starts []
