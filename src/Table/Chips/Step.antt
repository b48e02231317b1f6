-- ===== src/Table/Chips/Step.antt =====
-- Proofs about the chips of every action.
use pokerhub.Prelude.{ℕ, refl, ap, [], ◌+◌, subst, ◌≡◌, List, arith, Option, ◌∙◌, sym, false}
use pokerhub.Table.Types.{
  settle, OnOk, Result, Action, deal, betting_round, GameState, showdown_phase, ok, err, Phase,
  Machine, OnOk_elim, next_hand, wait_blinds,
}
use pokerhub.Table.Step.{
  apply_in, apply, apply_showdown, keep_blinds, apply_deal, apply_betting, apply_settle,
}
use pokerhub.Table.Chips.Phases.{
  apply_showdown-chips, lost, apply_deal-chips, apply_betting-Accounts, apply_blind-chips, lost_in,
  apply_settle-chips, Accounts,
}
use pokerhub.Table.Chips.Dealing.{is_showdown, IsSound}
use pokerhub.Table.Chips.Sums.{chips}

abbrev StepAccounts : GameState → GameState → Type 0
StepAccounts s t = IsSound t × (chips t + lost s ≡ chips s)

keep_blinds-OnOk :
    (P : GameState → Type 0) (posted : List ℕ) (r : Result GameState)
    → OnOk P r
    → OnOk (λ (n : Machine). P n.state) (keep_blinds posted r)
keep_blinds-OnOk P posted (ok s) h = h
keep_blinds-OnOk P posted (err e) h = tt

no_loss :
    (s : GameState) (r : Result Machine)
    → lost s ≡ 0
    → OnOk (λ (n : Machine). Accounts s n.state) r
    → OnOk (λ n. StepAccounts s n.state) r
no_loss s (ok n) e (sound, same) = (sound, omega (arith, same, e))
no_loss s (err _) e h = tt

apply-StepAccounts :
    (shuffled : List ℕ → List (Option ℕ)) (a : Action) (m : Machine)
    → IsSound m.state
    → OnOk (λ n. StepAccounts m.state n.state) (apply shuffled a m)
unfolding apply
apply-StepAccounts shuffled a m sound = go m.state.phase refl
  where
    s : GameState
    s = m.state

    quiet :
        (phase : Phase)
        → m.state.phase ≡ phase
        → is_showdown phase ≡ false
        → is_showdown m.state.phase ≡ false
    quiet phase e h = ap is_showdown e ∙ h

    go :
        (phase : Phase)
        → m.state.phase ≡ phase
        → OnOk (λ n. StepAccounts m.state n.state) (apply_in shuffled phase a m)
    go wait_blinds e =
        no_loss s _ (ap (λ phase. lost_in phase s) e)
          (apply_blind-chips shuffled a m sound.0 (quiet wait_blinds e refl))
    go next_hand e =
        no_loss s _ (ap (λ phase. lost_in phase s) e)
          (apply_blind-chips shuffled a m sound.0 (quiet next_hand e refl))
    go deal e = no_loss s _ (ap (λ phase. lost_in phase s) e) (
        keep_blinds-OnOk (Accounts s) m.blinds_posted (apply_deal shuffled a s)
          (apply_deal-chips shuffled a s sound.0))
    go betting_round e = no_loss s _ (ap (λ phase. lost_in phase s) e) (
        keep_blinds-OnOk (Accounts s) m.blinds_posted (apply_betting a s)
          (apply_betting-Accounts a s sound.0 (quiet betting_round e refl)))
    go showdown_phase e =
        keep_blinds-OnOk (StepAccounts s) m.blinds_posted (apply_showdown a s)
          (apply_showdown-chips a s sound e)
    go settle e = keep_blinds-OnOk (StepAccounts s) [] (apply_settle a s) (
        subst (λ k. OnOk (λ t. IsSound t × (chips t + k ≡ chips s)) (apply_settle a s))
          (sym (ap (λ phase. lost_in phase s) e)) (apply_settle-chips a s))

-- An action that is accepted keeps the pot funded by the side pots and the running bets, and changes
-- the chips in stacks and pot by no more than `lost`: at the showdown, the side pots none of whose
-- players is still in the hand; after it, a pot that was not paid.
pub apply-chips :
    (shuffled : List ℕ → List (Option ℕ)) (a : Action) (m n : Machine)
    → IsSound m.state
    → apply shuffled a m ≡ ok n
    → IsSound n.state × (chips n.state + lost m.state ≡ chips m.state)
apply-chips shuffled a m n sound e =
    OnOk_elim (λ k. StepAccounts m.state k.state) (apply shuffled a m)
      (apply-StepAccounts shuffled a m sound) e
