-- ===== src/Gateway/Stored.antt =====
-- Proofs about the copies of the states and of the tick, and about a restart.
use pokerhub.Gateway.Effect.{quiet, noted, applied, clocked, cleaned, with_seen, seen_of, Effect}
use pokerhub.Prelude.Assoc.{
  read-set_self, read-remove_self, read_at, remove_at, read-set_other, read-remove_other, set_at,
}
use pokerhub.Gateway.Calls.{run, Input, step}
use pokerhub.Gateway.Restart.{take_snapshots, take_cached, restarted, restore_state, take_snapshot}
use pokerhub.Prelude.{
  [], Option-cases, none, sym, eq_of_==, ◌≡◌, inr, ◌⊎◌, ◌==◌, Bool-cases, refl, ℕ, List, ◌∙◌, inl,
  some, ◌∷◌, Option, leb,
}
use pokerhub.Table.Types.{GameState}
use pokerhub.Gateway.Handler.{is_over}
use pokerhub.Gateway.Types.{Gateway, Snapshot, Settings}
use pokerhub.Prelude.Sort.{sort_by}
use pokerhub.Gateway.Core.{Core, core, engined, advanced}
use pokerhub.Gateway.Steps.{time_of, step-Effect}

-- The states and the tick agree with their copies in Redis; before the first state, nothing is stored.
abbrev pub IsStored : Core → Type 0
IsStored (engines, states, cached, tick, cached_tick, ss, seen) =
    ((table : ℕ) → read_at table states ≡ read_at table cached)
    × ((cached_tick ≡ some tick) ⊎ ((cached_tick ≡ none) × (tick ≡ 0) × (ss ≡ [])))

set-agrees :
    (k table : ℕ) (state : GameState) (a b : List (ℕ × GameState))
    → read_at k a ≡ read_at k b
    → read_at k (set_at table state a) ≡ read_at k (set_at table state b)
set-agrees k table state a b h = elim (Bool-cases (table == k)) [
  | inl same ↦
      let e = eq_of_== table k same in
      rw e (read-set_self k state a ∙ sym (read-set_self k state b))
  | inr other ↦
      read-set_other k table state a other ∙ h ∙ sym (read-set_other k table state b other)
]

remove-agrees :
    (k table : ℕ) (a b : List (ℕ × GameState))
    → read_at k a ≡ read_at k b
    → read_at k (remove_at table a) ≡ read_at k (remove_at table b)
remove-agrees k table a b h = elim (Bool-cases (table == k)) [
  | inl same ↦
      let e = eq_of_== table k same in rw e (read-remove_self k a ∙ sym (read-remove_self k b))
  | inr other ↦ read-remove_other k table a other ∙ h ∙ sym (read-remove_other k table b other)
]

advanced-IsStored :
    (table : ℕ) (state : GameState) (ss : List Snapshot) (c : Core)
    → IsStored c
    → IsStored (advanced table state ss c)
advanced-IsStored table state ss (engines, states, cached, tick, cached_tick, snaps, seen)
      (agree, h) =
    elim (Bool-cases (is_over state.phase)) [
      | inl over ↦ rw over (
        λ k.
            remove-agrees k table (set_at table state states) (set_at table state cached)
              (set-agrees k table state states cached (agree k)),
        inl refl,
      )
      | inr going ↦ rw going (λ k. set-agrees k table state states cached (agree k), inl refl)
    ]

module _ (shuffled : ℕ → List ℕ → List (Option ℕ)) where
  Effect-IsStored : (now : ℕ) (c d : Core) → Effect shuffled now c d → IsStored c → IsStored d
  Effect-IsStored now c d quiet h = h
  Effect-IsStored now c d (noted hash unseen) h = h
  Effect-IsStored now c d (applied hash w e n ss unseen engine step) h =
      advanced-IsStored w.table n.machine.state ss
        (engined w.table n (with_seen (set_at hash now (seen_of c)) c)) h
  Effect-IsStored now c d (clocked table state ss) h = advanced-IsStored table state ss c h
  Effect-IsStored now c d cleaned h = h

  module _ (digest : ℕ → ℕ) (settings : Settings) where
    run-IsStored :
        (inputs : List Input) (g : Gateway)
        → IsStored (core g)
        → IsStored (core (run shuffled digest settings inputs g))
    unfolding run
    run-IsStored [] g h = h
    run-IsStored (i ∷ inputs) g h = run-IsStored inputs (step shuffled digest settings i g) (
        Effect-IsStored (time_of i) (core g) (core (step shuffled digest settings i g))
          (step-Effect shuffled digest settings i g) h)

-- Snapshots leave what is in Redis alone.
take_snapshot_kept :
    (s : Snapshot) (g : Gateway)
    → ((take_snapshot s g).cached ≡ g.cached) × ((take_snapshot s g).cached_tick ≡ g.cached_tick)
unfolding take_snapshot
take_snapshot_kept s g = elim (Option-cases (read_at s.table g.states)) [
  | inl new ↦ rw (new, take_snapshot) (refl, refl)
  | inr (state, known) ↦ rw (known, take_snapshot) (refl, refl)
]

take_snapshots_kept :
    (ss : List Snapshot) (g : Gateway)
    → ((take_snapshots ss g).cached ≡ g.cached)
      × ((take_snapshots ss g).cached_tick ≡ g.cached_tick)
unfolding take_snapshots
take_snapshots_kept [] g = (refl, refl)
take_snapshots_kept (s ∷ ss) g =
    let (cached, tick) = take_snapshots_kept ss (take_snapshot s g) in
    let (cached_once, tick_once) = take_snapshot_kept s g in
    (cached ∙ cached_once, tick ∙ tick_once)

read-take_cached :
    (table : ℕ) (state : GameState) (cached states : List (ℕ × GameState))
    → read_at table cached ≡ some state
    → read_at table (take_cached cached states) ≡ some state
unfolding take_cached read_at
read-take_cached table state [] states found = absurd (cc found)
read-take_cached table state ((t, s) ∷ cached) states found = elim (Bool-cases (t == table)) [
  | inl same ↦ rw same (rw same at found)
  | inr other ↦ rw other (read-take_cached table state cached states (rw other at found))
]

restored_tick : (g : Gateway) → IsStored (core g) → (restore_state (restarted g)).tick ≡ g.tick
unfolding restore_state restarted
restored_tick g (agree, inl copied) =
    let snapped = sort_by (λ (a b : Snapshot). leb b.tick a.tick) g.snapshots in
    rw ((take_snapshots_kept snapped (restarted g)).1) (rw copied refl)
restored_tick g (agree, inr (nothing, start, empty)) =
    let snapped = sort_by (λ (a b : Snapshot). leb b.tick a.tick) g.snapshots in
    rw ((take_snapshots_kept snapped (restarted g)).1) (rw nothing (rw empty (rw start refl)))

restored_state :
    (g : Gateway) (table : ℕ) (state : GameState)
    → read_at table g.cached ≡ some state
    → read_at table (restore_state (restarted g)).states ≡ some state
unfolding restore_state restarted
restored_state g table state found =
    let snapped = sort_by (λ (a b : Snapshot). leb b.tick a.tick) g.snapshots in
    read-take_cached table state (take_snapshots snapped (restarted g)).cached
      (take_snapshots snapped (restarted g)).states
      (rw ((take_snapshots_kept snapped (restarted g)).0) found)

module _ (shuffled : ℕ → List ℕ → List (Option ℕ)) (digest : ℕ → ℕ) (settings : Settings) where
  -- A gateway whose stores agree with it, as those of a new one do, can be restarted after any inputs:
  -- `restoreState` brings back the tick, and the state of every table that had one.
  pub run-restore_state :
      (g : Gateway) (inputs : List Input)
      → IsStored (core g)
      → ((restore_state (restarted (run shuffled digest settings inputs g))).tick
          ≡ (run shuffled digest settings inputs g).tick)
        × ((table : ℕ) (state : GameState)
            → read_at table (run shuffled digest settings inputs g).states ≡ some state
            → read_at table
                (restore_state (restarted (run shuffled digest settings inputs g))).states
              ≡ some state)
  run-restore_state g inputs h =
      let after = run shuffled digest settings inputs g in
      let kept = run-IsStored shuffled digest settings inputs g h in
      (
        restored_tick after kept,
        λ table state found. restored_state after table state (sym (kept.0 table) ∙ found),
      )
