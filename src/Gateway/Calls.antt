-- ===== src/Gateway/Calls.antt =====
-- The other handlers of the gateway, the timers' callback, the periodic work, and sequences of them. `replay`
-- and `resume`, which only show what a room answers, are left out.
use pokerhub.Prelude.{
  leb, ◌+◌, false, ◌==◌, Option, [], if◌then◌else◌, none, ℕ, true, Bool, some, ◌∷◌, filter, List,
  not,
}
use pokerhub.Gateway.Handler.{
  store_state, set_timer, maybe_snapshot, clear_timer, handle_action, is_over, is_seen, remember,
  retention, close_hand, show_table,
}
use pokerhub.Gateway.Limits.{is_rate_limited, expire_counter, expire_global}
use pokerhub.Gateway.Types.{
  call_ack, Gateway, proof_unavailable, Client, server_error, or_else, Incoming, proof_message,
  Call, Settings,
}
use pokerhub.Gateway.Outbound.{ack_frame, retry_frame, enqueue, send_next}
use pokerhub.Prelude.Assoc.{remove_at, set_at, read_at}
use pokerhub.Engine.Run.{Engine}
use pokerhub.Table.Types.{GameState}
use pokerhub.Gateway.Flags.{Flags}

-- The player that a socket is taken to be: `client.data`, the handshake's `auth`, its query.
abbrev pub claimed_player : Client → Option ℕ
claimed_player c = or_else c.data_player (or_else c.auth_player c.query_player)

-- Entries whose key has a current value that is too old are deleted.
unfoldable pub trim_seen : ℕ → List (ℕ × ℕ) → List (ℕ × ℕ)
unfolding read_at
trim_seen now seen =
    filter (λ e. elim (read_at e.0 seen) [ none ↦ true | some t ↦ leb now (t + retention) ]) seen

-- `trimActionHashes()`
unfoldable pub trim_action_hashes : ℕ → Gateway → Gateway
unfolding trim_seen
trim_action_hashes now g = record g { seen = trim_seen now g.seen }

-- `startSession(table, players)`, with the engine that `GameEngine.create` returns.
abbrev pub start_session : ℕ → Engine → Gateway → Gateway
start_session table e g = record g { engines = set_at table e g.engines }

-- `handleDisconnect(client)`
unfoldable pub disconnect : ℕ → Gateway → Gateway
unfolding remove_at
disconnect socket g =
    let cleared = clear_timer socket 0 g in
    record cleared {
      sockets = remove_at socket cleared.sockets;
      frames = filter (λ f. not (f.socket == socket)) cleared.frames;
      waiting = remove_at socket cleared.waiting;
    }

-- `handleTimeout(player, table)`, with the state that the room's worker answers.
unfoldable pub time_out : ℕ → GameState → Gateway → Gateway
unfolding store_state maybe_snapshot show_table close_hand
time_out table state g =
    let tick = g.tick + 1 in
    let kept = maybe_snapshot table state (store_state table state (record g { tick = tick })) in
    close_hand (is_over state.phase) table (show_table table state tick kept)

-- What can happen to the gateway.
pub data Input : Type 0 where
  act : Flags → ℕ → Client → Incoming → Input
  ask : ℕ → Client → Call → ℕ → Input
  prove : (ℕ → Bool) → Client → ℕ → Input
  connected : ℕ → Client → Input
  disconnected : ℕ → Input
  acked retried sending : ℕ → ℕ → Input
  timed_out : ℕ → GameState → Input
  trimmed : ℕ → Input
  expired : ℕ → Input
  all_expired : Input

module _ (shuffled : ℕ → List ℕ → List (Option ℕ)) (digest : ℕ → ℕ) (settings : Settings) where
  -- `handleConnection(client)`
  unfoldable pub connect : ℕ → Client → Gateway → Gateway
  unfolding set_timer
  connect now c g =
      let bound : Gateway = elim (claimed_player c) [
        | none ↦ g
        | some p ↦ record g { sockets = set_at c.id p g.sockets }
      ] in
      set_timer settings.action_timeout now c.id 0 bound

  -- `acknowledge(client, event, payload)`
  unfoldable pub acknowledge : ℕ → ℕ → Call → ℕ → Gateway → Gateway
  unfolding enqueue is_seen
  acknowledge now socket event action_id g =
      if is_seen now (digest action_id) g.seen
      then enqueue settings socket (call_ack event action_id true) false g
      else remember now (digest action_id)
          (enqueue settings socket (call_ack event action_id false) false g)

  -- `handleJoin`, `handleBuyIn`, `handleSitout` and `handleRebuy`
  unfoldable pub handle_call : ℕ → Client → Call → ℕ → Gateway → Gateway
  unfolding is_rate_limited acknowledge
  handle_call now c event action_id g =
      let (counted, limited) = is_rate_limited settings c g in
      if limited then counted else acknowledge now c.id event action_id counted

  -- `handleProof(client, payload)`; `ready` tells whether the hand is stored with its seed and nonce.
  unfoldable pub handle_proof : (ℕ → Bool) → Client → ℕ → Gateway → Gateway
  unfolding is_rate_limited enqueue
  handle_proof ready c hand g =
      let (counted, limited) = is_rate_limited settings c g in
      if limited
      then counted
      else if ready hand
      then enqueue settings c.id (proof_message hand) true counted
      else enqueue settings c.id (server_error proof_unavailable) false counted

  unfoldable pub step : Input → Gateway → Gateway
  unfolding handle_action handle_call handle_proof connect
  step (act flags now c m) g = handle_action shuffled digest settings flags now c m g
  step (ask now c event action_id) g = handle_call now c event action_id g
  step (prove ready c hand) g = handle_proof ready c hand g
  step (connected now c) g = connect now c g
  step (disconnected socket) g = disconnect socket g
  step (acked socket frame_id) g = ack_frame socket frame_id g
  step (retried socket frame_id) g = retry_frame socket frame_id g
  step (sending socket frame_id) g = send_next socket frame_id g
  step (timed_out table state) g = time_out table state g
  step (trimmed now) g = trim_action_hashes now g
  step (expired key) g = expire_counter key g
  step all_expired g = expire_global g

  unfoldable pub run : List Input → Gateway → Gateway
  unfolding step
  run [] g = g
  run (i ∷ inputs) g = run inputs (step i g)
