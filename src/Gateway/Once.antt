-- ===== src/Gateway/Once.antt =====
-- Proofs about actions that are sent again.
use pokerhub.Prelude.{Bool-cases, refl, ℕ, inl, List, inr, ◌≡◌}
use pokerhub.Table.Types.{GameState}
use pokerhub.Gateway.Handler.{is_over}
use pokerhub.Gateway.Types.{Snapshot, Gateway}
use pokerhub.Gateway.Effect.{Effect, seen_of}
use pokerhub.Gateway.Flags.{Flags}
use pokerhub.Prelude.All.{All}
use pokerhub.Gateway.Core.{Core, advanced}

-- What a new state of a table leaves as it is.
pub seen-advanced :
    (table : ℕ) (state : GameState) (ss : List Snapshot) (c : Core)
    → seen_of (advanced table state ss c) ≡ seen_of c
seen-advanced table state ss c = elim (Bool-cases (is_over state.phase)) [
  | inl over ↦ rw over refl
  | inr going ↦ rw going refl
]
