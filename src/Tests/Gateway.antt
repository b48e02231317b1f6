-- ===== src/Tests/Gateway.antt =====
-- A gateway with one table and the sockets of two players.
use pokerhub.Gateway.Calls.{
  Input, connected, start_session, run, sending, trimmed, act, timed_out, time_out,
}
use pokerhub.Table.Types.{post_blind, GameState, ok, next_hand, Street}
use pokerhub.Prelude.{
  ℕ, true, refl, inr, ◌≡◌, List, ◌≤◌, [], ◌∷◌, ◌==◌, ◌-◌, map, ◌+◌, some, none, Option, false,
}
use pokerhub.Engine.Run.{Config, new_engine, Engine, replay_hand}
use pokerhub.Gateway.Restart.{restarted, restore_state, take_snapshot}
use pokerhub.Engine.Replay.{Played}
use pokerhub.Gateway.Types.{
  Client, Gateway, Settings, Message, engine_not_started, server_error, action_ack,
}
use pokerhub.Gateway.Tables.{run_refines}
use pokerhub.Gateway.Handler.{remember, stop_turn}
use pokerhub.Gateway.Stored.{run-restore_state}
use pokerhub.Gateway.Window.{let_through, let_through-le}
use pokerhub.Gateway.Limits.{counter_of}
use pokerhub.Prelude.Int.{◌-ℤ◌}
use pokerhub.Prelude.Assoc.{read_at}
use pokerhub.Gateway.Outbound.{send_next}

abbrev in_order : ℕ → List ℕ → List (Option ℕ)
in_order table cards = map some cards

abbrev same_id : ℕ → ℕ
same_id i = i

abbrev settings : Settings
settings = record { queue_limit = 100; global_limit = 30; action_timeout = 30000 }

abbrev socket_of : ℕ → ℕ → Client
socket_of socket player = record {
  id = socket;
  data_user = none;
  auth_user = some player;
  data_player = none;
  auth_player = none;
  query_player = some player;
  forwarded_for = none;
  address = none;
  remote_address = none;
}

abbrev empty_gateway : Gateway
empty_gateway = record {
  engines = [];
  states = [];
  cached = [];
  tick = 0;
  cached_tick = none;
  snapshots = [];
  last_snapshot = [];
  finished = [];
  seen = [];
  counters = [];
  global_count = 0;
  sockets = [];
  timers = [];
  waiting = [];
  emitted = [];
  frames = [];
  spectated = [];
}

abbrev stakes : Config
stakes = record { starting_stack = 100; small_blind = 1; big_blind = 2 }

abbrev opened : Gateway
opened = start_session 4 (new_engine stakes 5 (1 ∷ 2 ∷ [])) empty_gateway

abbrev blind : ℕ → ℕ → ℕ → ℕ → Input
blind now socket player amount = act [] now (socket_of socket player) (record {
  action_id = 70 + player;
  parsed = some (record { table = 4; action = post_blind player amount });
})

-- Both players connect and post their blinds; the second message of player 1 is sent again, and then from the
-- other player's socket.
abbrev evening : List Input
evening =
    connected 1000 (socket_of 11 1)
    ∷ connected 1001 (socket_of 12 2)
    ∷ blind 1002 11 1 1
    ∷ blind 1003 11 1 1
    ∷ blind 1004 12 2 2
    ∷ sending 11 900
    ∷ []

abbrev later_gateway : Gateway
later_gateway = run in_order same_id settings evening opened

abbrev stacks : List (ℕ × GameState) → List ℕ
stacks [] = []
stacks ((table, s) ∷ rest) = map (λ p. p.stack) s.players

abbrev summary : ℕ × List ℕ
summary = (later_gateway.tick, stacks later_gateway.states)

blinds_posted_once : summary ≡ (2, 99 ∷ 98 ∷ [])
unfolding run new_engine ◌-ℤ◌ send_next stop_turn
blinds_posted_once = refl

abbrev noted_gateway : Gateway
noted_gateway = remember 1002 71 opened

abbrev meanwhile : List Input
meanwhile = blind 1500 12 2 2 ∷ trimmed 1600 ∷ []

run_refines_example :
    (e : Engine) × (read_at 4
        (run in_order same_id settings evening
          (start_session 4 (new_engine stakes 5 (1 ∷ 2 ∷ [])) empty_gateway)).engines
      ≡ some e)
    × Played (in_order 4) (new_engine stakes 5 (1 ∷ 2 ∷ [])) e
    × (replay_hand (in_order 4) stakes 6 e ≡ ok e.machine.state)
run_refines_example =
    run_refines in_order same_id settings 4 stakes 5 6 (1 ∷ 2 ∷ []) empty_gateway evening

run-restore_state_example :
    ((restore_state (restarted (run in_order same_id settings evening opened))).tick
      ≡ (run in_order same_id settings evening opened).tick)
    × ((table : ℕ) (state : GameState)
        → read_at table (run in_order same_id settings evening opened).states ≡ some state
        → read_at table
            (restore_state (restarted (run in_order same_id settings evening opened))).states
          ≡ some state)
run-restore_state_example =
    run-restore_state in_order same_id settings opened evening
      (λ table. refl, inr (refl, refl, refl))

let_through-le_example :
    (let_through settings (λ k. k == 1) (socket_of 11 1 ∷ socket_of 12 2 ∷ []) opened
      ≤ 30 - counter_of 1 opened)
    × (let_through settings (λ _. true) (socket_of 11 1 ∷ socket_of 12 2 ∷ []) opened
        ≤ settings.global_limit - opened.global_count)
let_through-le_example = let_through-le settings 1 (socket_of 11 1 ∷ socket_of 12 2 ∷ []) opened

-- A hand that is over leaves no state, but the snapshot of it is taken for a state after a restart.
abbrev over_state : GameState
over_state = record {
  phase = next_hand;
  street = Street.preflop;
  pot = 0;
  side_pots = [];
  current_bet = 0;
  players = [];
  deck = [];
  community_cards = [];
}

abbrev closed : Gateway
closed = run in_order same_id settings (timed_out 4 over_state ∷ []) (record opened { tick = 49 })

abbrev tables_after_restart : List (ℕ × GameState) × List (ℕ × GameState)
tables_after_restart = (closed.states, (restore_state (restarted closed)).states)

over_comes_back : tables_after_restart ≡ ([], (4, over_state) ∷ [])
unfolding run restore_state restarted time_out take_snapshot
over_comes_back = refl

-- A refused action is taken for a repetition when it is sent again.
abbrev retried_action : Gateway
retried_action =
    run in_order same_id settings
      (connected 1000 (socket_of 11 1) ∷ blind 1001 11 1 1 ∷ blind 1002 11 1 1 ∷ []) empty_gateway

abbrev told : List Message
told = elim (read_at 11 retried_action.waiting) [ none ↦ [] | some out ↦ map (λ o. o.0) out ]

retry_is_duplicate :
    told ≡ server_error engine_not_started ∷ action_ack 71 false ∷ action_ack 71 true ∷ []
unfolding run send_next stop_turn
retry_is_duplicate = refl
