-- ===== src/Gateway/Restart.antt =====
-- `restoreState`, which a new gateway runs over what the last one left in Redis and in the database.
use pokerhub.Gateway.Types.{or_number, Snapshot, Gateway}
use pokerhub.Prelude.{ℕ, ltb, List, leb, some, ◌∷◌, [], if◌then◌else◌, none}
use pokerhub.Table.Types.{GameState}
use pokerhub.Prelude.Assoc.{set_at, read_at}
use pokerhub.Prelude.Sort.{sort_by}

-- A gateway that has just been constructed, with the stores of the given one.
unfoldable pub restarted : Gateway → Gateway
restarted g = record g {
  engines = [];
  states = [];
  tick = 0;
  last_snapshot = [];
  sockets = [];
  timers = [];
  waiting = [];
  emitted = [];
  frames = [];
  spectated = [];
}

-- A snapshot of a table that has none yet; they come with the latest tick first.
unfoldable pub take_snapshot : Snapshot → Gateway → Gateway
take_snapshot s g = elim (read_at s.table g.states) [
  | some known ↦ g
  | none ↦ record g {
    states = set_at s.table s.state g.states;
    tick = if ltb g.tick s.tick then s.tick else g.tick;
  }
]

unfoldable pub take_snapshots : List Snapshot → Gateway → Gateway
unfolding read_at
take_snapshots [] g = g
take_snapshots (s ∷ ss) g = take_snapshots ss (take_snapshot s g)

-- The states in Redis, which take the place of the snapshots'. They are listed once for each table.
unfoldable pub take_cached : List (ℕ × GameState) → List (ℕ × GameState) → List (ℕ × GameState)
take_cached [] states = states
take_cached ((table, state) ∷ cached) states = set_at table state (take_cached cached states)

-- `restoreState()` of states that are well formed
unfoldable pub restore_state : Gateway → Gateway
unfolding take_snapshots take_cached sort_by
restore_state g =
    let snapped = take_snapshots (sort_by (λ (a b : Snapshot). leb b.tick a.tick) g.snapshots) g in
    record snapped {
      tick = or_number snapped.cached_tick snapped.tick;
      states = take_cached snapped.cached snapped.states;
    }
