-- ===== src/Gateway/Handler.antt =====
-- `handleAction` of the gateway. The shuffle of each table's engine is the parameter `shuffled`, SHA-256 of an
-- action identifier is `digest`. An action that the engine refuses leaves it as it was: every `throw` of
-- `state-machine.ts` stands before the first write, for tables of up to 26 players. `Date.now()` is the same
-- throughout a handler, and a handler's awaited calls are not interleaved with another's. Analytics and the
-- collusion service, which are told of the action, are left out.
use pokerhub.Gateway.Flags.{settlement, is_off, dealing, Flags}
use pokerhub.Engine.Run.{Engine, apply_logged}
use pokerhub.Table.Types.{next_hand, GameState, err, Phase, ok, Result}
use pokerhub.Gateway.Types.{
  Wire, Gateway, action_ack, or_number, server_error, Client, Notice, dealing_disabled,
  state_message, Incoming, player_of, engine_not_started, player_mismatch, refused,
  settlement_disabled, Settings,
}
use pokerhub.Prelude.{
  some, [], ◌+◌, false, List, true, ◌∷◌, ◌++◌, ℕ, none, if◌then◌else◌, ltb, Bool, leb, ◌&&◌, ◌==◌,
  not, ◌-◌, filter, Option,
}
use pokerhub.Prelude.Assoc.{read_at, remove_at, set_at}
use pokerhub.Gateway.Outbound.{enqueue}
use pokerhub.Gateway.Limits.{is_rate_limited}
use pokerhub.Engine.Views.{sanitize}
use pokerhub.Engine.Log.{HandLog}

-- `actionRetentionMs`
abbrev pub retention : ℕ
retention = 86400000

-- `snapshotInterval`
abbrev pub snapshot_interval : ℕ
snapshot_interval = 50

abbrev pub same_timer : ℕ × ℕ → ℕ × ℕ → Bool
same_timer a b = a.0 == b.0 && a.1 == b.1

-- `clock.clearTimer(player, table)` of `clock.service.ts`
abbrev pub clear_timer : ℕ → ℕ → Gateway → Gateway
clear_timer player table g = record g {
  timers = filter (λ t. not (same_timer (t.0) (table, player))) g.timers;
}

-- `clock.setTimer(player, table, ...)`
unfoldable pub set_timer : ℕ → ℕ → ℕ → ℕ → Gateway → Gateway
set_timer action_timeout now player table g =
    let cleared = clear_timer player table g in
    record cleared { timers = ((table, player), now + action_timeout) ∷ cleared.timers }

-- `existing && Date.now() - Number(existing) < actionRetentionMs`
unfoldable pub is_seen : ℕ → ℕ → List (ℕ × ℕ) → Bool
unfolding read_at
is_seen now hash seen = elim (read_at hash seen) [ none ↦ false | some t ↦ ltb now (t + retention) ]

-- `redis.hset(actionHashKey, hash, now)`
abbrev pub remember : ℕ → ℕ → Gateway → Gateway
remember now hash g = record g { seen = set_at hash now g.seen }

-- `actingPlayerId && (!expectedPlayerId || actingPlayerId !== expectedPlayerId)`
abbrev pub is_mismatch : Option ℕ → Option ℕ → Bool
is_mismatch none expected = false
is_mismatch (some p) none = true
is_mismatch (some p) (some q) = not (p == q)

-- `maybeSnapshot(table, state)`
unfoldable pub maybe_snapshot : ℕ → GameState → Gateway → Gateway
unfolding read_at
maybe_snapshot table state g =
    if leb snapshot_interval (g.tick - or_number (read_at table g.last_snapshot) 0)
    then record g {
      snapshots = g.snapshots ++ record { table = table; tick = g.tick; state = state } ∷ [];
      last_snapshot = set_at table g.tick g.last_snapshot;
    }
    else g

abbrev pub is_over : Phase → Bool
is_over next_hand = true
is_over _ = false

-- `states.set`, and the writes of the state and the tick to Redis.
unfoldable pub store_state : ℕ → GameState → Gateway → Gateway
store_state table state g = record g {
  states = set_at table state g.states;
  cached = set_at table state g.cached;
  cached_tick = some g.tick;
}

-- `states.delete` and `redis.del`
unfoldable pub drop_state : ℕ → Gateway → Gateway
unfolding remove_at
drop_state table g = record g {
  states = remove_at table g.states;
  cached = remove_at table g.cached;
}

unfoldable pub ack : Settings → ℕ → ℕ → Bool → Gateway → Gateway
unfolding enqueue
ack settings socket action_id duplicate g =
    enqueue settings socket (action_ack action_id duplicate) false g

-- The error and the acknowledgement of an action that is not applied.
unfoldable pub refuse : Settings → ℕ → ℕ → Notice → Gateway → Gateway
unfolding ack enqueue
refuse settings socket action_id notice g =
    ack settings socket action_id false (enqueue settings socket (server_error notice) false g)

-- The player's next turn, while the hand goes on.
unfoldable pub start_turn : Settings → ℕ → Wire → Bool → Gateway → Gateway
unfolding set_timer
start_turn settings now w over g = elim (player_of w.action) [
  | none ↦ g
  | some p ↦ if over then g else set_timer settings.action_timeout now p w.table g
]

-- `hands.save(...)` of a hand that is over
unfoldable pub save_finished : Bool → ℕ → HandLog → Gateway → Gateway
save_finished over table log g =
    if over
    then record g { finished = g.finished ++ record { table = table; log = log } ∷ [] }
    else g

-- What spectators, or all sockets of a table, are sent.
unfoldable pub show_table : ℕ → GameState → ℕ → Gateway → Gateway
unfolding sanitize
show_table table state tick g = record g {
  spectated = g.spectated ++ (table, state_message (sanitize none state) tick) ∷ [];
}

-- The state of a hand that is over is deleted.
unfoldable pub close_hand : Bool → ℕ → Gateway → Gateway
unfolding drop_state
close_hand over table g = if over then drop_state table g else g

-- `engine.applyAction` has left this engine, and the tick is counted.
abbrev pub apply_engine : ℕ → Engine → Gateway → Gateway
apply_engine table e g = record g { engines = set_at table e g.engines; tick = g.tick + 1 }

-- What follows `engine.applyAction`, with the engine after it. `GameStateSchema.parse` of the messages is
-- taken not to throw.
unfoldable pub publish : Settings → ℕ → ℕ → ℕ → Wire → Engine → Gateway → Gateway
unfolding enqueue store_state maybe_snapshot ack start_turn sanitize save_finished show_table
    close_hand
publish settings now socket action_id w e g =
    let state = e.machine.state in
    let over = is_over state.phase in
    let tick = g.tick + 1 in
    let view = state_message (sanitize (player_of w.action) state) tick in
    let shown = enqueue settings socket view true (apply_engine w.table e g) in
    let kept = maybe_snapshot w.table state (store_state w.table state shown) in
    let watched = show_table w.table state tick (save_finished over w.table e.log kept) in
    close_hand over w.table
      (start_turn settings now w over (ack settings socket action_id false watched))

-- The timer of the acting player is cleared.
unfoldable pub stop_turn : Wire → Gateway → Gateway
stop_turn w g = elim (player_of w.action) [ none ↦ g | some p ↦ clear_timer p w.table g ]

module _ (shuffled : ℕ → List ℕ → List (Option ℕ)) (digest : ℕ → ℕ) (settings : Settings) where
  -- What the engine answers.
  unfoldable pub answer : ℕ → ℕ → ℕ → Wire → Result Engine → Gateway → Gateway
  unfolding refuse publish
  answer now socket action_id w (err x) g = refuse settings socket action_id (refused x) g
  answer now socket action_id w (ok n) g = publish settings now socket action_id w n g

  -- The engine of the table, if there is one.
  unfoldable pub ask_engine : ℕ → ℕ → ℕ → Wire → Option Engine → Gateway → Gateway
  unfolding refuse answer apply_logged
  ask_engine now socket action_id w none g = refuse settings socket action_id engine_not_started g
  ask_engine now socket action_id w (some e) g =
      answer now socket action_id w (apply_logged (shuffled w.table) w.action e) g

  -- The flags are asked first.
  unfoldable pub play : Flags → ℕ → ℕ → ℕ → Wire → Gateway → Gateway
  unfolding is_off refuse ask_engine read_at
  play flags now socket action_id w g =
      if is_off dealing w.table flags
      then refuse settings socket action_id dealing_disabled g
      else if is_off settlement w.table flags
      then refuse settings socket action_id settlement_disabled g
      else ask_engine now socket action_id w (read_at w.table g.engines) g

  -- An action of the player that the socket belongs to.
  unfoldable pub admit : Flags → ℕ → ℕ → ℕ → Wire → Gateway → Gateway
  unfolding is_seen ack play
  admit flags now socket action_id w g =
      if is_seen now (digest action_id) g.seen
      then ack settings socket action_id true g
      else play flags now socket action_id w (stop_turn w (remember now (digest action_id) g))

  -- A message that the rate limit lets through. The parse error is thrown again after the acknowledgement.
  unfoldable pub receive : Flags → ℕ → ℕ → Incoming → Gateway → Gateway
  unfolding ack refuse admit read_at
  receive flags now socket m g = elim m.parsed [
    | none ↦ ack settings socket m.action_id false g
    | some w ↦
        if is_mismatch (player_of w.action) (read_at socket g.sockets)
        then refuse settings socket m.action_id player_mismatch g
        else admit flags now socket m.action_id w g
  ]

  -- `handleAction(client, action)`
  unfoldable pub handle_action : Flags → ℕ → Client → Incoming → Gateway → Gateway
  unfolding is_rate_limited receive
  handle_action flags now c m g =
      let (counted, limited) = is_rate_limited settings c g in
      if limited then counted else receive flags now c.id m counted
