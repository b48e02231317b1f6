-- ===== src/Engine/Hand.antt =====
-- Proofs about `replayHand` and the players of an engine.
use pokerhub.Engine.Replay.{acted, created}
use pokerhub.Prelude.{
  ◌≡◌, ap, ℕ, sym, ◌∙◌, inl, [], ◌∷◌, inr, ◌&&◌, subst, leb, refl, length, Option, Bool-cases, List,
}
use pokerhub.Engine.Run.{
  reveal_and_settle, Config, at_showdown, advance, skip_to_showdown, new_engine, replay_hand,
  Engine,
}
use pokerhub.Table.Seats.{SameSeats, settle_pots-SameSeats, ids}
use pokerhub.Engine.Replay.{
  Played, logged, advance_each, Chains, Played-log, apply_each-advance_each, actions_of,
}
use pokerhub.Table.Types.{
  next, OnOk-bind, Action, OnOk, ◌>>=◌, Result, Machine, OnOk_elim, OnOk-if, ok, err,
}
use pokerhub.Table.Bets.{active_players}
use pokerhub.Table.Seating.{apply-Seated}
use pokerhub.Table.Step.{apply, is_betting}

module _ (shuffled : List ℕ → List (Option ℕ)) where
  skip-SameSeats : (m : Machine) → SameSeats m.state (skip_to_showdown m).state
  unfolding skip_to_showdown
  skip-SameSeats m =
      elim (Bool-cases (leb (length (active_players m.state)) 1 && is_betting m.state.phase)) [
        | inl over ↦ rw over refl
        | inr going_on ↦ rw going_on refl
      ]

  reveal-SameSeats :
      (m : Machine) → OnOk (λ n. SameSeats m.state n.state) (reveal_and_settle shuffled m)
  unfolding reveal_and_settle
  reveal-SameSeats m =
      OnOk-if (λ (n : Machine). SameSeats m.state n.state) (at_showdown m.state.phase) _ (ok m)
        (λ _.
          OnOk-bind (λ (n : Machine). SameSeats m.state n.state)
            (λ (n : Machine). SameSeats m.state n.state) (apply shuffled next m) _
            (apply-Seated shuffled next m) λ n h. settle_pots-SameSeats n.state ∙ h)
        (λ _. refl)

  advance-SameSeats :
      (action : Action) (m : Machine)
      → OnOk (λ n. SameSeats m.state n.state) (advance shuffled action m)
  unfolding advance
  advance-SameSeats action m =
      OnOk-bind (λ (n : Machine). SameSeats m.state n.state)
        (λ (n : Machine). SameSeats m.state n.state) (apply shuffled action m) _
        (apply-Seated shuffled action m)
        λ n h.
          go n h (reveal_and_settle shuffled (skip_to_showdown n))
            (reveal-SameSeats (skip_to_showdown n))
    where
      go :
          (n : Machine)
          → SameSeats m.state n.state
          → (r : Result Machine) → OnOk (λ k. SameSeats (skip_to_showdown n).state k.state) r
          → OnOk (λ k. SameSeats m.state k.state) r
      go n h (ok k) later = later ∙ skip-SameSeats n ∙ h
      go n h (err e) later = tt

  Played-SameSeats :
      (start e : Engine) → Played shuffled start e → SameSeats start.machine.state e.machine.state
  Played-SameSeats start e created = refl
  Played-SameSeats start n (acted {e} action play step) =
      let (m, moved, same) = logged shuffled action e n step in
      let kept : SameSeats e.machine.state m.state =
        OnOk_elim (λ (k : Machine). SameSeats e.machine.state k.state)
          (advance shuffled action e.machine) (advance-SameSeats action e.machine) moved in
      subst (λ (k : Engine). SameSeats start.machine.state k.machine.state) (sym same)
        (kept ∙ Played-SameSeats start e play)

  ids-new_engine :
      (config : Config) (commitment : ℕ) (players : List ℕ)
      → ids (new_engine config commitment players).machine.state.players ≡ players
  unfolding new_engine
  ids-new_engine config commitment [] = refl
  ids-new_engine config commitment (i ∷ players) =
      ap (◌∷◌ i) (ids-new_engine config commitment players)

  no_entries :
      (config : Config) (commitment : ℕ) (players : List ℕ)
      → (new_engine config commitment players).log.entries ≡ []
  unfolding new_engine
  no_entries config commitment players = refl

  same_machine :
      (config : Config) (k j : ℕ) (players : List ℕ)
      → (new_engine config k players).machine ≡ (new_engine config j players).machine
  unfolding new_engine
  same_machine config k j players = refl

  -- After any accepted actions, `replayHand` returns and arrives at the engine's own state, if it shuffles
  -- as the engine did.
  pub replay_agrees :
      (config : Config) (commitment another : ℕ) (players : List ℕ) (e : Engine)
      → Played shuffled (new_engine config commitment players) e
      → replay_hand shuffled config another e ≡ ok e.machine.state
  unfolding replay_hand
  replay_agrees config commitment another players e play =
      let start = new_engine config commitment players in
      let seats : ids e.machine.state.players ≡ players =
        Played-SameSeats start e play ∙ ids-new_engine config commitment players in
      let run = (Played-log shuffled start e (no_entries config commitment players) play).1 in
      rw seats (
        apply_each-advance_each shuffled (actions_of e.log) (new_engine config another players)
        ∙ ap (λ m. advance_each shuffled (actions_of e.log) m >>= λ n. ok n.state)
            (same_machine config another commitment players)
        ∙ ap (λ r. r >>= λ (n : Machine). ok n.state) run)

  -- The log of a hand is a chain: its entries are numbered from 0, the first starts in the initial state,
  -- each in the state that the one before it left, and the last leaves the engine's state.
  pub log-Chains :
      (config : Config) (commitment : ℕ) (players : List ℕ) (e : Engine)
      → Played shuffled (new_engine config commitment players) e
      → Chains (new_engine config commitment players).machine.state 0 e.log.entries e.machine.state
  log-Chains config commitment players e play =
      (Played-log shuffled (new_engine config commitment players) e
        (no_entries config commitment players) play).0
