-- ===== src/Engine/Run.antt =====
-- `GameEngine`: creation, `applyAction` and `replayHand`. The shuffle of the engine's `HandRNG` is the
-- parameter `shuffled`. Persistence and events are left out; the wallet's part of `settle`, which goes on
-- after `applyAction` has returned, is in `Funds`.
use pokerhub.Table.Types.{
  ok, wait_blinds, GameState, preflop, next, Phase, ◌>>=◌, Result, Action, Machine, showdown_phase,
  Player,
}
use pokerhub.Prelude.{
  ◌∷◌, false, Bool, true, ◌&&◌, if◌then◌else◌, [], map, List, length, none, Option, leb, ℕ,
}
use pokerhub.Table.Step.{is_betting, apply}
use pokerhub.Table.Bets.{active_players}
use pokerhub.Table.Settle.{settle_pots}
use pokerhub.Engine.Log.{record_action, HandLog, new_log}

pub record Config : Type 0 where
  pub starting_stack : ℕ
  pub small_blind : ℕ
  pub big_blind : ℕ

pub record Engine : Type 0 where
  pub machine : Machine
  pub log : HandLog
  pub initial_stacks : List (ℕ × ℕ)

abbrev pub new_player : Config → ℕ → Player
new_player config i = record {
  id = i;
  stack = config.starting_stack;
  folded = false;
  bet = 0;
  all_in = false;
  hole_cards = none;
}

-- `new GameEngine(playerIds, config, ...)`
unfoldable pub new_engine : Config → ℕ → List ℕ → Engine
new_engine config commitment ids = record {
  machine = record {
    state = record {
      phase = wait_blinds;
      street = preflop;
      pot = 0;
      side_pots = [];
      current_bet = 0;
      players = map (new_player config) ids;
      deck = [];
      community_cards = [];
    };
    blinds_posted = [];
  };
  log = new_log commitment;
  initial_stacks = map (λ i. (i, config.starting_stack)) ids;
}

abbrev pub set_state : Machine → GameState → Machine
set_state m s = record m { state = s }

abbrev pub at_showdown : Phase → Bool
at_showdown showdown_phase = true
at_showdown _ = false

-- With one active player or none a betting round goes on to the showdown.
unfoldable pub skip_to_showdown : Machine → Machine
unfolding active_players
skip_to_showdown m =
    if leb (length (active_players m.state)) 1 && is_betting m.state.phase
    then set_state m (record m.state { phase = showdown_phase })
    else m

module _ (shuffled : List ℕ → List (Option ℕ)) where
  -- `apply({ type: 'next' })` and the first statements of `settle`.
  unfoldable pub reveal_and_settle : Machine → Result Machine
  unfolding apply settle_pots
  reveal_and_settle m =
      if at_showdown m.state.phase
      then (apply shuffled next m >>= λ n. ok (set_state n (settle_pots n.state)))
      else ok m

  -- What `applyAction` does to the machine.
  unfoldable pub advance : Action → Machine → Result Machine
  unfolding apply skip_to_showdown reveal_and_settle
  advance action m = apply shuffled action m >>= λ n. reveal_and_settle (skip_to_showdown n)

  -- `applyAction(action)`
  unfoldable pub apply_logged : Action → Engine → Result Engine
  unfolding advance record_action
  apply_logged action e = advance action e.machine >>= λ m.
      ok (record e { machine = m; log = record_action action e.machine.state m.state e.log })

  unfoldable pub apply_each : List Action → Engine → Result Engine
  unfolding apply_logged
  apply_each [] e = ok e
  apply_each (action ∷ rest) e = apply_logged action e >>= apply_each rest

  -- `replayHand()`
  unfoldable pub replay_hand : Config → ℕ → Engine → Result GameState
  unfolding new_engine apply_each
  replay_hand config commitment e =
      apply_each (map (λ entry. entry.action) e.log.entries)
        (new_engine config commitment (map (λ p. p.id) e.machine.state.players))
      >>= λ replayed. ok replayed.machine.state
