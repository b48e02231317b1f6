-- ===== src/Gateway/Tables.antt =====
-- Proofs about the engines that the gateway keeps.
use pokerhub.Gateway.Effect.{
  quiet, noted, applied, clocked, cleaned, seen_of, Effect, engines_of, with_seen,
}
use pokerhub.Engine.Replay.{acted, created, Played}
use pokerhub.Gateway.Calls.{run, step, start_session, Input}
use pokerhub.Engine.Run.{new_engine, replay_hand, Engine, Config, apply_logged}
use pokerhub.Prelude.{
  ℕ, ◌∷◌, List, refl, sym, Option, [], ◌≡◌, ◌∙◌, ◌==◌, inr, ap, inl, some, subst, Bool-cases,
  eq_of_==, eq_of_some,
}
use pokerhub.Engine.Hand.{replay_agrees}
use pokerhub.Gateway.Types.{Gateway, Snapshot, Settings}
use pokerhub.Table.Types.{GameState, ok}
use pokerhub.Prelude.Assoc.{read-set_self, set_at, read_at, read-set_other}
use pokerhub.Gateway.Handler.{is_over}
use pokerhub.Gateway.Core.{Core, core, engined, advanced}
use pokerhub.Gateway.Steps.{time_of, step-Effect}

engines-advanced :
    (table : ℕ) (state : GameState) (ss : List Snapshot) (c : Core)
    → engines_of (advanced table state ss c) ≡ engines_of c
engines-advanced table state ss c = elim (Bool-cases (is_over state.phase)) [
  | inl over ↦ rw over refl
  | inr going ↦ rw going refl
]

module _ (shuffled : ℕ → List ℕ → List (Option ℕ)) where
  -- A table's engine that accepted actions lead to.
  abbrev pub IsPlayed : ℕ → Engine → List (ℕ × Engine) → Type 0
  IsPlayed table start engines =
      (e : Engine) × (read_at table engines ≡ some e) × Played (shuffled table) start e

  Effect-IsPlayed :
      (now table : ℕ) (start : Engine) (c d : Core)
      → Effect shuffled now c d
      → IsPlayed table start (engines_of c)
      → IsPlayed table start (engines_of d)
  Effect-IsPlayed now table start c d quiet played = played
  Effect-IsPlayed now table start c d (noted hash unseen) played = played
  Effect-IsPlayed now table start c d (clocked t state ss) played =
      subst (IsPlayed table start) (sym (engines-advanced t state ss c)) played
  Effect-IsPlayed now table start c d cleaned played = played
  Effect-IsPlayed now table start c d (applied hash w e n ss unseen engine step)
        (m, found, played) =
      let rest = engined w.table n (with_seen (set_at hash now (seen_of c)) c) in
      subst (IsPlayed table start) (sym (engines-advanced w.table n.machine.state ss rest))
        (elim (Bool-cases (w.table == table)) [
          | inl same ↦
              let at : w.table ≡ table = eq_of_== w.table table same in
              let here : e ≡ m =
                eq_of_some (sym engine ∙ ap (λ k. read_at k (engines_of c)) at ∙ found) in
              let moved : apply_logged (shuffled table) w.action m ≡ ok n =
                subst (λ k. apply_logged (shuffled k) w.action m ≡ ok n) at
                  (subst (λ x. apply_logged (shuffled w.table) w.action x ≡ ok n) here step) in
              (n, rw at (read-set_self table n (engines_of c)), acted w.action played moved)
          | inr other ↦ (m, read-set_other table w.table n (engines_of c) other ∙ found, played)
        ])

  module _ (digest : ℕ → ℕ) (settings : Settings) where
    run-IsPlayed :
        (table : ℕ) (start : Engine) (inputs : List Input) (g : Gateway)
        → IsPlayed table start g.engines
        → IsPlayed table start (run shuffled digest settings inputs g).engines
    unfolding run
    run-IsPlayed table start [] g played = played
    run-IsPlayed table start (i ∷ inputs) g played =
        run-IsPlayed table start inputs (step shuffled digest settings i g) (
          Effect-IsPlayed (time_of i) table start (core g)
            (core (step shuffled digest settings i g)) (step-Effect shuffled digest settings i g)
            played)

    -- After `startSession`, whatever the gateway receives, in whatever order, the table keeps an engine that
    -- some sequence of accepted actions leads to from the new one; and `replayHand` of it, with the same
    -- shuffle, returns and arrives at its state.
    pub run_refines :
        (table : ℕ) (config : Config) (commitment another : ℕ) (players : List ℕ) (g : Gateway)
        (inputs : List Input)
        → (e : Engine) × (read_at table
              (run shuffled digest settings inputs
                (start_session table (new_engine config commitment players) g)).engines
            ≡ some e)
          × Played (shuffled table) (new_engine config commitment players) e
          × (replay_hand (shuffled table) config another e ≡ ok e.machine.state)
    run_refines table config commitment another players g inputs =
        let start = new_engine config commitment players in
        let (e, found, played) =
          run-IsPlayed table start inputs (start_session table start g)
            (start, read-set_self table start g.engines, created) in
        (
          e,
          found,
          played,
          replay_agrees (shuffled table) config commitment another players e played,
        )
