-- ===== src/Gateway/Types.antt =====
-- The state of `GameGateway` and the messages it receives and sends. Tables, players, sockets, action
-- identifiers and addresses are only compared and are numbers; table 0 is the one called 'default'. Times are
-- milliseconds. The metrics are left out.
use pokerhub.Table.Types.{Action, bet, call, raise, post_blind, GameState, Error, fold, check, next}
use pokerhub.Prelude.{none, List, ℕ, Option, Bool, some}
use pokerhub.Engine.Run.{Engine}
use pokerhub.Engine.Views.{PublicState}
use pokerhub.Engine.Log.{HandLog}

pub data Call : Type 0 where
  join buy_in sitout rebuy : Call

pub data Notice : Type 0 where
  player_mismatch dealing_disabled settlement_disabled engine_not_started rate_limited throttled
        proof_unavailable :
      Notice
  refused : Error → Notice

-- What `sanitize` returns.
abbrev pub View : Type 0
View = PublicState × List (Option (List ℕ))

-- What the server sends; a proof is named by its hand.
pub data Message : Type 0 where
  state_message : View → ℕ → Message
  action_ack : ℕ → Bool → Message
  call_ack : Call → ℕ → Bool → Message
  proof_message : ℕ → Message
  server_error : Notice → Message

-- A message that waits in a socket's queue, and whether it is critical.
abbrev pub Outgoing : Type 0
Outgoing = Message × Bool

-- A critical message that the client has not acknowledged.
pub record Frame : Type 0 where
  pub socket : ℕ
  pub frame_id : ℕ
  pub message : Message
  pub attempt : ℕ

-- A socket with what its handshake and its data say.
pub record Client : Type 0 where
  pub id : ℕ
  pub data_user : Option ℕ
  pub auth_user : Option ℕ
  pub data_player : Option ℕ
  pub auth_player : Option ℕ
  pub query_player : Option ℕ
  pub forwarded_for : Option ℕ
  pub address : Option ℕ
  pub remote_address : Option ℕ

-- An action after `GameActionSchema.parse`.
pub record Wire : Type 0 where
  pub table : ℕ
  pub action : Action

-- The body of an `action` message; none where the schema refuses it.
pub record Incoming : Type 0 where
  pub action_id : ℕ
  pub parsed : Option Wire

pub record Snapshot : Type 0 where
  pub table : ℕ
  pub tick : ℕ
  pub state : GameState

-- A finished hand as it is saved.
pub record Finished : Type 0 where
  pub table : ℕ
  pub log : HandLog

-- The fields of the gateway, and of what it keeps in Redis (`seen`, `cached`, `cached_tick`, `counters`,
-- `global_count`) and in the database (`snapshots`, `finished`).
pub record Gateway : Type 0 where
  pub engines : List (ℕ × Engine)
  pub states : List (ℕ × GameState)
  pub cached : List (ℕ × GameState)
  pub tick : ℕ
  pub cached_tick : Option ℕ
  pub snapshots : List Snapshot
  pub last_snapshot : List (ℕ × ℕ)
  pub finished : List Finished
  pub seen : List (ℕ × ℕ)
  pub counters : List (ℕ × ℕ)
  pub global_count : ℕ
  pub sockets : List (ℕ × ℕ)
  pub timers : List ((ℕ × ℕ) × ℕ)
  pub waiting : List (ℕ × List Outgoing)
  pub emitted : List (ℕ × Message)
  pub frames : List Frame
  pub spectated : List (ℕ × Message)

-- `queueLimit`, `globalLimit` and the clock's `actionTimeoutMs`
pub record Settings : Type 0 where
  pub queue_limit : ℕ
  pub global_limit : ℕ
  pub action_timeout : ℕ

-- `a ?? b`
abbrev pub or_else : Option ℕ → Option ℕ → Option ℕ
or_else none b = b
or_else (some x) b = some x

abbrev pub or_number : Option ℕ → ℕ → ℕ
or_number none n = n
or_number (some x) n = x

-- The player that an action names.
abbrev pub player_of : Action → Option ℕ
player_of (post_blind p n) = some p
player_of (bet p n) = some p
player_of (raise p n) = some p
player_of (call p) = some p
player_of (check p) = some p
player_of (fold p) = some p
player_of next = none
