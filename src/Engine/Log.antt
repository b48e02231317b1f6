-- ===== src/Engine/Log.antt =====
-- `HandLog` of `backend/src/game/hand-log.ts`. The file that it also writes is left out.
use pokerhub.Table.Types.{Action, GameState}
use pokerhub.Prelude.{[], ◌++◌, length, some, List, get_elem?, none, Option, ◌∷◌, ℕ}
use pokerhub.Wallet.Record.{post}

-- `HandProofResponse`
pub record HandProof : Type 0 where
  pub commitment : ℕ
  pub seed : ℕ
  pub nonce : ℕ
  pub deck : List (Option ℕ)

pub record LogEntry : Type 0 where
  pub index : ℕ
  pub action : Action
  pub pre_state : GameState
  pub post_state : GameState

pub record HandLog : Type 0 where
  pub entries : List LogEntry
  pub commitment : Option ℕ
  pub proof : Option HandProof

-- `new HandLog(handId, commitment)`
abbrev pub new_log : ℕ → HandLog
new_log commitment = record { entries = []; commitment = some commitment; proof = none }

-- `record(action, preState, postState)`
unfoldable pub record_action : Action → GameState → GameState → HandLog → HandLog
record_action action pre post log = record log {
  entries =
      log.entries
      ++ record { index = length log.entries; action = action; pre_state = pre; post_state = post }
        ∷ [];
}

-- `recordProof(proof)`
abbrev pub record_proof : HandProof → HandLog → HandLog
record_proof proof log = record log { proof = some proof }

-- `reconstruct(index)`
unfoldable pub reconstruct : ℕ → HandLog → Option GameState
reconstruct i log = elim (get_elem? log.entries i) [
  | none ↦ none
  | some entry ↦ some entry.post_state
]
