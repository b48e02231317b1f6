-- ===== src/Table/Chips/Phases.antt =====
-- What the actions of each phase do to the chips.
use pokerhub.Table.Round.{is_empty, advance_street, finish_betting_round}
use pokerhub.Table.Types.{
  OnOk, next, call, raise, settle, Action, fold, Machine, GameState, OnOk-bind, showdown_phase,
  check, bet, post_blind, Player, OnOk-if, Street, Result, ok, turn, preflop, Phase, deal, ◌>>=◌,
  river, flop, err,
}
use pokerhub.Table.Chips.Dealing.{
  SameSums, Keeps, is_showdown, IsSound, deal_holes-SameSums, deal_street-Keeps, bet-BetKeeps,
  BetKeeps, find_player-found, place_bet-chips,
}
use pokerhub.Table.Step.{
  deal_street, apply_deal, apply_blind, start_hand, apply_action, close_round, add_blind, end_round,
  set_folded, is_betting, apply_showdown, apply_betting, reset_player, apply_settle,
}
use pokerhub.Table.Chips.Sums.{IsFunded, chips, bets, sum_by-update_same, side_total, stacks}
use pokerhub.Table.Settle.{pots_of, active_of, settle_pots}
use pokerhub.Table.Chips.Payout.{unclaimed, settle_pots-stacks}
use pokerhub.Prelude.{
  arith, [], ℕ, Option, false, ◌≡◌, if◌then◌else◌, List, ◌&&◌, ◌-◌, length, inl, leb, ◌∷◌, some,
  refl, inr, ltb, Bool-cases, find, any, ◌+◌, ◌==◌, ◌∙◌, ap, true, map,
}
use pokerhub.Table.Deal.{deal_holes}
use pokerhub.Deck.{build_deck}
use pokerhub.Table.Bets.{place_bet, active_players, has_id, find_player}
use pokerhub.Table.Chips.Levels.{finish_betting_round-funds}
use pokerhub.Table.Chips.Showdown.{bets-settle_pots, side_total-pots_of}

-- What leaves the hand in a step: at the showdown the pots that nobody can win, if anyone is left, and
-- after it the pot that is still there.
abbrev pub lost_in : Phase → GameState → ℕ
lost_in showdown_phase s =
    if is_empty (active_of s.players) then 0 else unclaimed (pots_of s) s.players
lost_in settle s = s.pot
lost_in _ s = 0

abbrev pub lost : GameState → ℕ
lost s = lost_in s.phase s

abbrev pub Accounts : GameState → GameState → Type 0
Accounts s t = IsSound t × (chips t ≡ chips s)

BetKeeps-Accounts :
    (s t : GameState) → IsFunded s → is_showdown s.phase ≡ false → BetKeeps s t → Accounts s t
BetKeeps-Accounts s t funded ph (same, fund, e) = ((omega (arith, funded, fund), λ h. cc), same)

start_hand-Accounts :
    (shuffled : List ℕ → List (Option ℕ)) (s : GameState)
    → IsFunded s
    → OnOk (Accounts s) (start_hand shuffled s)
unfolding start_hand
start_hand-Accounts shuffled s funded =
    OnOk-bind (SameSums s.players) (Accounts s) (deal_holes s.players (build_deck shuffled [])) _
      (deal_holes-SameSums s.players (build_deck shuffled []))
      λ (dealt, left) h. ((omega (arith, h.1, funded), λ e. cc), omega (arith, h.0))

pub apply_blind-chips :
    (shuffled : List ℕ → List (Option ℕ)) (a : Action) (m : Machine)
    → IsFunded m.state
    → is_showdown m.state.phase ≡ false
    → OnOk (λ n. Accounts m.state n.state) (apply_blind shuffled a m)
unfolding apply_blind
apply_blind-chips shuffled (post_blind i amount) m funded ph =
    let s = m.state in
    OnOk-bind (λ p. find (has_id p.id) s.players ≡ some p) (λ n. Accounts s n.state)
      (find_player i s) _ (find_player-found i s)
      λ p found.
        OnOk-bind (BetKeeps s) (λ n. Accounts s n.state) (place_bet p amount s) _
          (place_bet-chips p amount s found)
          λ t kept. posted p t (BetKeeps-Accounts s t funded ph kept)
  where
    posted :
        (p : Player) (t : GameState)
        → Accounts m.state t
        → OnOk
            (λ (n : Machine). Accounts m.state n.state)
            (if length (add_blind p.id m.blinds_posted) == length t.players
              then (start_hand shuffled t >>= λ dealt.
                  ok (record { state = dealt; blinds_posted = [] }))
              else ok (record { state = t; blinds_posted = add_blind p.id m.blinds_posted }))
    posted p t (sound, same) =
        OnOk-if (λ (n : Machine). Accounts m.state n.state)
          (length (add_blind p.id m.blinds_posted) == length t.players) _
          (ok (record { state = t; blinds_posted = add_blind p.id m.blinds_posted }))
          (λ _.
            OnOk-bind (Accounts t) (λ (n : Machine). Accounts m.state n.state)
              (start_hand shuffled t) (λ dealt. ok (record { state = dealt; blinds_posted = [] }))
              (start_hand-Accounts shuffled t sound.0) λ u (v, w). (v, w ∙ same))
          (λ _. (sound, same))
apply_blind-chips shuffled (bet _ _) m funded ph = tt
apply_blind-chips shuffled (raise _ _) m funded ph = tt
apply_blind-chips shuffled (call _) m funded ph = tt
apply_blind-chips shuffled (check _) m funded ph = tt
apply_blind-chips shuffled (fold _) m funded ph = tt
apply_blind-chips shuffled next m funded ph = tt

pub apply_deal-chips :
    (shuffled : List ℕ → List (Option ℕ)) (a : Action) (s : GameState)
    → IsFunded s
    → OnOk (Accounts s) (apply_deal shuffled a s)
unfolding apply_deal
apply_deal-chips shuffled next s funded =
    OnOk-bind (Keeps s) (Accounts s) (deal_street shuffled s) _ (deal_street-Keeps shuffled s)
      λ t ((st, bt, po, si), ph).
        ((omega (arith, funded, bt, po, si), λ e. cc), omega (arith, st, po))
apply_deal-chips shuffled (post_blind _ _) s funded = tt
apply_deal-chips shuffled (bet _ _) s funded = tt
apply_deal-chips shuffled (raise _ _) s funded = tt
apply_deal-chips shuffled (call _) s funded = tt
apply_deal-chips shuffled (check _) s funded = tt
apply_deal-chips shuffled (fold _) s funded = tt

end_round-Accounts : (s : GameState) → IsFunded s → Accounts s (end_round s)
unfolding end_round advance_street
end_round-Accounts s funded = go s.street
  where
    t : GameState
    t = advance_street (finish_betting_round s)

    moved : (ph : Phase) → Accounts s (record t { phase = ph })
    moved ph =
        let (si, bt, st, po) = finish_betting_round-funds s in
        ((omega (arith, funded, si, bt, po), λ _. bt), omega (arith, st, po))

    go :
        (street : Street)
        → Accounts s (elim street [
          | river ↦ record t { phase = showdown_phase }
          | _ ↦ record t { phase = deal }
        ])
    go preflop = moved deal
    go flop = moved deal
    go turn = moved deal
    go river = moved showdown_phase
    go Street.showdown = moved deal

apply_action-Accounts :
    (a : Action) (s : GameState)
    → IsFunded s
    → is_showdown s.phase ≡ false
    → OnOk (Accounts s) (apply_action a s)
unfolding apply_action
apply_action-Accounts a s funded ph = go a
  where
    paid : (r : Result GameState) → OnOk (BetKeeps s) r → OnOk (Accounts s) r
    paid (ok t) kept = BetKeeps-Accounts s t funded ph kept
    paid (err _) kept = tt

    go : (b : Action) → OnOk (Accounts s) (apply_action b s)
    go (post_blind i amount) = paid _ (bet-BetKeeps i (λ _. amount) s)
    go (bet i amount) = paid _ (bet-BetKeeps i (λ _. amount) s)
    go (raise i amount) = paid _ (bet-BetKeeps i (λ _. amount) s)
    go (call i) = paid _ (bet-BetKeeps i (λ p. s.current_bet - p.bet) s)
    go (check i) = ((funded, λ e. cc), refl)
    go (fold i) =
        OnOk-bind (λ p. Unit {0}) (Accounts s) (find_player i s) _ (anything (find_player i s))
          λ p _.
            let st =
              sum_by-update_same (λ q. q.stack) (has_id p.id) set_folded s.players (λ q. refl) in
            let bt =
              sum_by-update_same (λ q. q.bet) (has_id p.id) set_folded s.players (λ q. refl) in
            ((omega (arith, funded, bt), λ e. cc), omega (arith, st))
      where
        anything : (r : Result Player) → OnOk (λ p. Unit {0}) r
        anything (ok p) = tt
        anything (err _) = tt
    go next = end_round-Accounts s funded

no_bets : (ps : List Player) → any (λ p. ltb 0 p.bet) ps ≡ false → bets ps ≡ 0
no_bets [] e = refl
no_bets (p ∷ ps) e = ground (arith, no_bets ps)

close_round-Accounts : (s : GameState) → IsSound s → Accounts s (close_round s)
unfolding close_round
close_round-Accounts s sound =
    elim (Bool-cases (is_betting s.phase && leb (length (active_players s)) 1)) [
      | inr going_on ↦ rw going_on (sound, refl)
      | inl over ↦ elim (Bool-cases (any (λ p. ltb 0 p.bet) s.players)) [
        | inl committed ↦
            let (si, bt, st, po) = finish_betting_round-funds s in
            rw over
              (rw committed ((omega (arith, sound.0, si, bt, po), λ _. bt), omega (arith, st, po)))
        | inr quiet ↦ rw over (rw quiet ((sound.0, λ _. no_bets s.players quiet), refl))
      ]
    ]

pub apply_betting-Accounts :
    (a : Action) (s : GameState)
    → IsFunded s
    → is_showdown s.phase ≡ false
    → OnOk (Accounts s) (apply_betting a s)
unfolding apply_betting
apply_betting-Accounts a s funded ph =
    OnOk-bind (Accounts s) (Accounts s) (apply_action a s) (λ t. ok (close_round t))
      (apply_action-Accounts a s funded ph)
      λ t (sound, same).
        let (sound', same') = close_round-Accounts t sound in (sound', same' ∙ same)

settle_nobody : (s : GameState) → is_empty (active_of s.players) ≡ true → settle_pots s ≡ s
unfolding settle_pots
settle_nobody s nobody = rw nobody refl

pub apply_showdown-chips :
    (a : Action) (s : GameState)
    → IsSound s
    → s.phase ≡ showdown_phase
    → OnOk (λ t. IsSound t × (chips t + lost s ≡ chips s)) (apply_showdown a s)
unfolding apply_showdown
apply_showdown-chips next s sound ph =
    let quiet : bets s.players ≡ 0 = sound.1 (ap is_showdown ph) in
    let total : side_total (pots_of s) ≡ s.pot =
      side_total-pots_of s (omega (arith, sound.0, quiet)) in
    let at_showdown : lost s ≡ lost_in showdown_phase s = ap (λ phase. lost_in phase s) ph in
    elim (Bool-cases (is_empty (active_of s.players))) [
      | inl nobody ↦
          let none_lost : lost s ≡ 0 = at_showdown ∙ rw nobody refl in
          rw (settle_nobody s nobody) ((sound.0, λ e. cc), omega (arith, none_lost))
      | inr somebody ↦
          let (paid, po, si) = settle_pots-stacks s somebody in
          let gone : lost s ≡ unclaimed (pots_of s) s.players = at_showdown ∙ rw somebody refl in
          (
            (omega (arith, po, ap side_total si, bets-settle_pots s, quiet), λ e. cc),
            omega (arith, paid, total, po, gone),
          )
    ]
apply_showdown-chips (post_blind _ _) s sound ph = tt
apply_showdown-chips (bet _ _) s sound ph = tt
apply_showdown-chips (raise _ _) s sound ph = tt
apply_showdown-chips (call _) s sound ph = tt
apply_showdown-chips (check _) s sound ph = tt
apply_showdown-chips (fold _) s sound ph = tt

reset-stacks :
    (ps : List Player)
    → (stacks (map reset_player ps) ≡ stacks ps) × (bets (map reset_player ps) ≡ 0)
reset-stacks [] = (refl, refl)
reset-stacks (p ∷ ps) = let (st, bt) = reset-stacks ps in (omega (arith, st), omega (arith, bt))

pub apply_settle-chips :
    (a : Action) (s : GameState)
    → OnOk (λ t. IsSound t × (chips t + s.pot ≡ chips s)) (apply_settle a s)
unfolding apply_settle
apply_settle-chips next s =
    let (st, bt) = reset-stacks s.players in ((omega (arith, bt), λ e. cc), omega (arith, st))
apply_settle-chips (post_blind _ _) s = tt
apply_settle-chips (bet _ _) s = tt
apply_settle-chips (raise _ _) s = tt
apply_settle-chips (call _) s = tt
apply_settle-chips (check _) s = tt
apply_settle-chips (fold _) s = tt
