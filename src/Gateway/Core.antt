-- ===== src/Gateway/Core.antt =====
-- Proofs about the parts of the gateway's state that sending and counting leave as they are.
use pokerhub.Prelude.{
  length, [], true, ◌∷◌, List, false, if◌then◌else◌, ◌∙◌, refl, Bool-cases, inr, Option, find, leb,
  Bool, inl, Option-cases, ltb, ◌≡◌, ℕ, some, ◌+◌,
}
use pokerhub.Gateway.Limits.{rate_key, is_rate_limited, count_message, counter_of}
use pokerhub.Gateway.Types.{
  Gateway, server_error, Outgoing, Snapshot, rate_limited, Message, action_ack, Notice, Client,
  Settings,
}
use pokerhub.Gateway.Outbound.{
  enqueue, retry_frame, send_next, emit, waiting_of, track_frame, is_frame,
}
use pokerhub.Prelude.Assoc.{set_at, remove_at}
use pokerhub.Gateway.Handler.{refuse, ack, is_over}
use pokerhub.Table.Types.{GameState}
use pokerhub.Engine.Run.{Engine}

-- The engines, the states with their copies, the ticks and the actions that were seen.
abbrev pub Core : Type 0
Core =
    List (ℕ × Engine)
    × List (ℕ × GameState)
    × List (ℕ × GameState)
    × ℕ
    × Option ℕ
    × List Snapshot
    × List (ℕ × ℕ)

abbrev pub core : Gateway → Core
core g = (g.engines, g.states, g.cached, g.tick, g.cached_tick, g.snapshots, g.seen)

pub core-enqueue :
    (settings : Settings) (socket : ℕ) (message : Message) (critical : Bool) (g : Gateway)
    → core (enqueue settings socket message critical g) ≡ core g
unfolding enqueue
core-enqueue settings socket message critical g =
    elim (Bool-cases (leb settings.queue_limit (length (waiting_of socket g)))) [
      | inl full ↦ rw full refl
      | inr room ↦ rw room refl
    ]

pub core-send_next :
    (socket frame_id : ℕ) (g : Gateway) → core (send_next socket frame_id g) ≡ core g
unfolding send_next
core-send_next socket frame_id g = go (waiting_of socket g)
  where
    go :
        (out : List Outgoing)
        → core (elim out [
          | [] ↦ g
          | (message, critical) ∷ rest ↦
              let sent =
                emit socket message (record g { waiting = set_at socket rest g.waiting }) in
              if critical then track_frame socket frame_id message sent else sent
        ])
          ≡ core g
    go [] = refl
    go ((message, true) ∷ rest) = refl
    go ((message, false) ∷ rest) = refl

pub core-retry_frame :
    (socket frame_id : ℕ) (g : Gateway) → core (retry_frame socket frame_id g) ≡ core g
unfolding retry_frame
core-retry_frame socket frame_id g =
    elim (Option-cases (find (is_frame socket frame_id) g.frames)) [
      | inl missing ↦ rw (missing, retry_frame) refl
      | inr (f, found) ↦ rw (found, retry_frame) refl
    ]

pub core-is_rate_limited :
    (settings : Settings) (c : Client) (g : Gateway)
    → core (is_rate_limited settings c g).0 ≡ core g
unfolding is_rate_limited count_message
core-is_rate_limited settings c g =
    let counted = count_message (rate_key c) g in
    elim (Bool-cases (ltb settings.global_limit counted.global_count)) [
      | inl much ↦ rw much (core-enqueue settings c.id (server_error rate_limited) false counted)
      | inr less ↦ elim (Bool-cases (ltb 30 (counter_of (rate_key c) counted))) [
        | inl many ↦ rw less (rw many refl)
        | inr few ↦ rw less (rw few refl)
      ]
    ]

pub core-ack :
    (settings : Settings) (socket action_id : ℕ) (duplicate : Bool) (g : Gateway)
    → core (ack settings socket action_id duplicate g) ≡ core g
unfolding ack
core-ack settings socket action_id duplicate g =
    core-enqueue settings socket (action_ack action_id duplicate) false g

pub core-refuse :
    (settings : Settings) (socket action_id : ℕ) (notice : Notice) (g : Gateway)
    → core (refuse settings socket action_id notice g) ≡ core g
unfolding refuse
core-refuse settings socket action_id notice g =
    core-ack settings socket action_id false (enqueue settings socket (server_error notice) false g)
    ∙ core-enqueue settings socket (server_error notice) false g

-- What the writes of `publish` make of the core.
abbrev pub with_snapshots : List Snapshot → Core → Core
with_snapshots ss (engines, states, cached, tick, cached_tick, _, seen) =
    (engines, states, cached, tick, cached_tick, ss, seen)

abbrev pub stored : ℕ → GameState → Core → Core
stored table state (engines, states, cached, tick, _, ss, seen) =
    (engines, set_at table state states, set_at table state cached, tick, some tick, ss, seen)

abbrev pub dropped : ℕ → Core → Core
dropped table (engines, states, cached, tick, cached_tick, ss, seen) =
    (engines, remove_at table states, remove_at table cached, tick, cached_tick, ss, seen)

abbrev pub ticked : Core → Core
ticked (engines, states, cached, tick, cached_tick, ss, seen) =
    (engines, states, cached, tick + 1, cached_tick, ss, seen)

abbrev pub engined : ℕ → Engine → Core → Core
engined table e (engines, states, cached, tick, cached_tick, ss, seen) =
    (set_at table e engines, states, cached, tick, cached_tick, ss, seen)

-- What a new state of a table makes of the core, with the snapshots after it.
abbrev pub advanced : ℕ → GameState → List Snapshot → Core → Core
advanced table state ss c =
    let kept = with_snapshots ss (stored table state (ticked c)) in
    if is_over state.phase then dropped table kept else kept
