-- ===== src/Gateway/Publish.antt =====
-- Proofs about the core of the gateway's state after a new state of a table.
use pokerhub.Engine.Run.{Engine}
use pokerhub.Gateway.Handler.{
  publish, save_finished, set_timer, ack, close_hand, is_over, start_turn, store_state, drop_state,
  show_table, maybe_snapshot, snapshot_interval, apply_engine,
}
use pokerhub.Gateway.Core.{
  with_snapshots, core, engined, core-enqueue, dropped, advanced, core-ack, stored,
}
use pokerhub.Prelude.{
  ap, [], ◌∷◌, false, ◌-◌, ◌+◌, ◌++◌, ◌≡◌, if◌then◌else◌, inl, List, ◌∙◌, Bool, ℕ, inr,
  Option-cases, leb, true, refl, Bool-cases,
}
use pokerhub.Gateway.Calls.{time_out}
use pokerhub.Gateway.Types.{state_message, Snapshot, Gateway, Wire, player_of, or_number, Settings}
use pokerhub.Engine.Views.{sanitize}
use pokerhub.Table.Types.{GameState}
use pokerhub.Engine.Log.{HandLog}
use pokerhub.Prelude.Assoc.{read_at}
use pokerhub.Gateway.Outbound.{enqueue}

core-maybe_snapshot :
    (table : ℕ) (state : GameState) (g : Gateway)
    → (ss : List Snapshot) × (core (maybe_snapshot table state g) ≡ with_snapshots ss (core g))
unfolding maybe_snapshot
core-maybe_snapshot table state g =
    elim (Bool-cases
      (leb snapshot_interval (g.tick - or_number (read_at table g.last_snapshot) 0))) [
        | inl due ↦ (
          g.snapshots ++ record { table = table; tick = g.tick; state = state } ∷ [],
          rw due refl,
        )
        | inr early ↦ (g.snapshots, rw early refl)
      ]

core-start_turn :
    (settings : Settings) (now : ℕ) (w : Wire) (over : Bool) (g : Gateway)
    → core (start_turn settings now w over g) ≡ core g
unfolding start_turn set_timer
core-start_turn settings now w over g = elim (Option-cases (player_of w.action)) [
  | inl nobody ↦ rw (nobody, start_turn) refl
  | inr (p, someone) ↦ elim (Bool-cases over) [
    | inl last ↦ rw (someone, start_turn) (rw last refl)
    | inr more ↦ rw (someone, start_turn) (rw more refl)
  ]
]

core-close_hand :
    (over : Bool) (table : ℕ) (g : Gateway)
    → core (close_hand over table g) ≡ (if over then dropped table (core g) else core g)
unfolding close_hand drop_state
core-close_hand true table g = refl
core-close_hand false table g = refl

core-save_finished :
    (over : Bool) (table : ℕ) (log : HandLog) (g : Gateway)
    → core (save_finished over table log g) ≡ core g
unfolding save_finished
core-save_finished true table log g = refl
core-save_finished false table log g = refl

core-show_table :
    (table : ℕ) (state : GameState) (tick : ℕ) (g : Gateway)
    → core (show_table table state tick g) ≡ core g
unfolding show_table
core-show_table table state tick g = refl

core-store_state :
    (table : ℕ) (state : GameState) (g : Gateway)
    → core (store_state table state g) ≡ stored table state (core g)
unfolding store_state
core-store_state table state g = refl

pub core-publish :
    (settings : Settings) (now socket action_id : ℕ) (w : Wire) (e : Engine) (g : Gateway)
    → (ss : List Snapshot) × (core (publish settings now socket action_id w e g)
        ≡ advanced w.table e.machine.state ss (engined w.table e (core g)))
unfolding publish
core-publish settings now socket action_id w e g =
    let state = e.machine.state in
    let over = is_over state.phase in
    let tick = g.tick + 1 in
    let view = state_message (sanitize (player_of w.action) state) tick in
    let shown = enqueue settings socket view true (apply_engine w.table e g) in
    let kept = maybe_snapshot w.table state (store_state w.table state shown) in
    let saved = save_finished over w.table e.log kept in
    let watched = show_table w.table state tick saved in
    let acked = ack settings socket action_id false watched in
    let (ss, snapped_core) = core-maybe_snapshot w.table state (store_state w.table state shown) in
    let same : core (start_turn settings now w over acked)
        ≡ with_snapshots ss (stored w.table state (core (apply_engine w.table e g))) =
      core-start_turn settings now w over acked
      ∙ core-ack settings socket action_id false watched
      ∙ core-show_table w.table state tick saved
      ∙ core-save_finished over w.table e.log kept
      ∙ snapped_core
      ∙ ap (with_snapshots ss) (core-store_state w.table state shown)
      ∙ ap (λ c. with_snapshots ss (stored w.table state c))
          (core-enqueue settings socket view true (apply_engine w.table e g)) in
    (
      ss,
      core-close_hand over w.table (start_turn settings now w over acked)
          ∙ ap (λ c. if over then dropped w.table c else c) same,
    )

pub core-time_out :
    (table : ℕ) (state : GameState) (g : Gateway)
    → (ss : List Snapshot) × (core (time_out table state g) ≡ advanced table state ss (core g))
unfolding time_out
core-time_out table state g =
    let over = is_over state.phase in
    let started = record g { tick = g.tick + 1 } in
    let kept = maybe_snapshot table state (store_state table state started) in
    let (ss, snapped_core) = core-maybe_snapshot table state (store_state table state started) in
    let same : core (show_table table state (g.tick + 1) kept)
        ≡ with_snapshots ss (stored table state (core started)) =
      core-show_table table state (g.tick + 1) kept
      ∙ snapped_core
      ∙ ap (with_snapshots ss) (core-store_state table state started) in
    (
      ss,
      core-close_hand over table (show_table table state (g.tick + 1) kept)
          ∙ ap (λ c. if over then dropped table c else c) same,
    )
