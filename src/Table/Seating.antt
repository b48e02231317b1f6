-- ===== src/Table/Seating.antt =====
-- Proofs about the identifiers of a hand's players under `apply`.
use pokerhub.Table.Types.{
  Action, turn, betting_round, raise, flop, err, Street, preflop, OnOk, call, bet, Machine,
  post_blind, settle, Phase, river, next_hand, OnOk-bind, fold, Result, ok, ◌>>=◌, next,
  wait_blinds, OnOk-if, check, deal, Player, showdown_phase, GameState,
}
use pokerhub.Table.Seats.{
  deal_community-SameSeats, ids-update_first, finish_betting_round-SameSeats, ids-map,
  deal_holes-HoldsIds, HoldsIds, place_bet-SameSeats, settle_pots-SameSeats, SameSeats,
}
use pokerhub.Table.Round.{advance_street, finish_betting_round}
use pokerhub.Prelude.{
  ◌&&◌, List, Bool-cases, length, inr, ◌∙◌, ltb, ◌-◌, ℕ, [], Option, inl, ◌==◌, any, leb, refl,
}
use pokerhub.Table.Deal.{deal_holes, deal_community}
use pokerhub.Table.Step.{
  end_round, start_hand, keep_blinds, apply_action, apply_deal, close_round, deal_street,
  apply_settle, reset_player, apply_blind, add_blind, apply, is_betting, apply_in, apply_showdown,
  apply_betting, set_folded,
}
use pokerhub.Table.Bets.{place_bet, has_id, find_player, active_players}
use pokerhub.Deck.{build_deck}

anything : {A : Type 0} (r : Result A) → OnOk (λ _. Unit {0}) r
anything (ok a) = tt
anything (err e) = tt

deal_street-SameSeats :
    (shuffled : List ℕ → List (Option ℕ)) (s : GameState)
    → OnOk (SameSeats s) (deal_street shuffled s)
unfolding deal_street
deal_street-SameSeats shuffled s = go s.street
  where
    go :
        (street : Street)
        → OnOk (SameSeats s) (elim street [
          | flop ↦ deal_community shuffled 3 s
          | turn ↦ deal_community shuffled 1 s
          | river ↦ deal_community shuffled 1 s
          | _ ↦ ok s
        ])
    go preflop = refl
    go flop = deal_community-SameSeats shuffled 3 s
    go turn = deal_community-SameSeats shuffled 1 s
    go river = deal_community-SameSeats shuffled 1 s
    go Street.showdown = refl

apply_deal-SameSeats :
    (shuffled : List ℕ → List (Option ℕ)) (a : Action) (s : GameState)
    → OnOk (SameSeats s) (apply_deal shuffled a s)
unfolding apply_deal
apply_deal-SameSeats shuffled next s =
    OnOk-bind (SameSeats s) (SameSeats s) (deal_street shuffled s) _
      (deal_street-SameSeats shuffled s) λ t h. h
apply_deal-SameSeats shuffled (post_blind _ _) s = tt
apply_deal-SameSeats shuffled (bet _ _) s = tt
apply_deal-SameSeats shuffled (raise _ _) s = tt
apply_deal-SameSeats shuffled (call _) s = tt
apply_deal-SameSeats shuffled (check _) s = tt
apply_deal-SameSeats shuffled (fold _) s = tt

end_round-SameSeats : (s : GameState) → SameSeats s (end_round s)
unfolding end_round advance_street
end_round-SameSeats s = go s.street
  where
    t : GameState
    t = advance_street (finish_betting_round s)

    go :
        (street : Street)
        → SameSeats s (elim street [
          | river ↦ record t { phase = showdown_phase }
          | _ ↦ record t { phase = deal }
        ])
    go preflop = finish_betting_round-SameSeats s
    go flop = finish_betting_round-SameSeats s
    go turn = finish_betting_round-SameSeats s
    go river = finish_betting_round-SameSeats s
    go Street.showdown = finish_betting_round-SameSeats s

-- `findPlayer` and then `placeBet`.
bet-SameSeats :
    (i : ℕ) (amount : Player → ℕ) (s : GameState)
    → OnOk (SameSeats s) (find_player i s >>= λ p. place_bet p (amount p) s)
bet-SameSeats i amount s =
    OnOk-bind (λ _. Unit {0}) (SameSeats s) (find_player i s) _ (anything (find_player i s))
      λ p _. place_bet-SameSeats p (amount p) s

apply_action-SameSeats : (a : Action) (s : GameState) → OnOk (SameSeats s) (apply_action a s)
unfolding apply_action
apply_action-SameSeats (post_blind i amount) s = bet-SameSeats i (λ _. amount) s
apply_action-SameSeats (bet i amount) s = bet-SameSeats i (λ _. amount) s
apply_action-SameSeats (raise i amount) s = bet-SameSeats i (λ _. amount) s
apply_action-SameSeats (call i) s = bet-SameSeats i (λ p. s.current_bet - p.bet) s
apply_action-SameSeats (check i) s = refl
apply_action-SameSeats (fold i) s =
    OnOk-bind (λ _. Unit {0}) (SameSeats s) (find_player i s) _ (anything (find_player i s))
      λ p _. ids-update_first (has_id p.id) set_folded s.players (λ q. refl)
apply_action-SameSeats next s = end_round-SameSeats s

close_round-SameSeats : (s : GameState) → SameSeats s (close_round s)
unfolding close_round
close_round-SameSeats s =
    elim (Bool-cases (is_betting s.phase && leb (length (active_players s)) 1)) [
      | inr going_on ↦ rw going_on refl
      | inl over ↦ elim (Bool-cases (any (λ p. ltb 0 p.bet) s.players)) [
        | inl committed ↦ rw over (rw committed (finish_betting_round-SameSeats s))
        | inr quiet ↦ rw over (rw quiet refl)
      ]
    ]

apply_betting-SameSeats : (a : Action) (s : GameState) → OnOk (SameSeats s) (apply_betting a s)
unfolding apply_betting
apply_betting-SameSeats a s =
    OnOk-bind (SameSeats s) (SameSeats s) (apply_action a s) (λ t. ok (close_round t))
      (apply_action-SameSeats a s) λ t h. close_round-SameSeats t ∙ h

start_hand-SameSeats :
    (shuffled : List ℕ → List (Option ℕ)) (s : GameState)
    → OnOk (SameSeats s) (start_hand shuffled s)
unfolding start_hand
start_hand-SameSeats shuffled s =
    OnOk-bind (HoldsIds s.players) (SameSeats s) (deal_holes s.players (build_deck shuffled [])) _
      (deal_holes-HoldsIds s.players (build_deck shuffled [])) λ (dealt, left) h. h

abbrev Seated : Machine → Machine → Type 0
Seated m n = SameSeats m.state n.state

apply_blind-Seated :
    (shuffled : List ℕ → List (Option ℕ)) (a : Action) (m : Machine)
    → OnOk (Seated m) (apply_blind shuffled a m)
unfolding apply_blind
apply_blind-Seated shuffled (post_blind i amount) m =
    OnOk-bind (λ _. Unit {0}) (Seated m) (find_player i m.state) _
      (anything (find_player i m.state))
      λ p _.
        OnOk-bind (SameSeats m.state) (Seated m) (place_bet p amount m.state) _
          (place_bet-SameSeats p amount m.state)
          λ t h.
            OnOk-if (Seated m) (length (add_blind p.id m.blinds_posted) == length t.players) _
              (ok (record { state = t; blinds_posted = add_blind p.id m.blinds_posted }))
              (λ _.
                OnOk-bind (SameSeats t) (Seated m) (start_hand shuffled t) _
                  (start_hand-SameSeats shuffled t) λ u k. k ∙ h)
              (λ _. h)
apply_blind-Seated shuffled (bet _ _) m = tt
apply_blind-Seated shuffled (raise _ _) m = tt
apply_blind-Seated shuffled (call _) m = tt
apply_blind-Seated shuffled (check _) m = tt
apply_blind-Seated shuffled (fold _) m = tt
apply_blind-Seated shuffled next m = tt

apply_showdown-SameSeats : (a : Action) (s : GameState) → OnOk (SameSeats s) (apply_showdown a s)
unfolding apply_showdown
apply_showdown-SameSeats next s = settle_pots-SameSeats s
apply_showdown-SameSeats (post_blind _ _) s = tt
apply_showdown-SameSeats (bet _ _) s = tt
apply_showdown-SameSeats (raise _ _) s = tt
apply_showdown-SameSeats (call _) s = tt
apply_showdown-SameSeats (check _) s = tt
apply_showdown-SameSeats (fold _) s = tt

apply_settle-SameSeats : (a : Action) (s : GameState) → OnOk (SameSeats s) (apply_settle a s)
unfolding apply_settle
apply_settle-SameSeats next s = ids-map reset_player s.players (λ p. refl)
apply_settle-SameSeats (post_blind _ _) s = tt
apply_settle-SameSeats (bet _ _) s = tt
apply_settle-SameSeats (raise _ _) s = tt
apply_settle-SameSeats (call _) s = tt
apply_settle-SameSeats (check _) s = tt
apply_settle-SameSeats (fold _) s = tt

keep_blinds-Seated :
    (m : Machine) (posted : List ℕ) (r : Result GameState)
    → OnOk (SameSeats m.state) r
    → OnOk (Seated m) (keep_blinds posted r)
keep_blinds-Seated m posted (ok s) h = h
keep_blinds-Seated m posted (err e) h = tt

-- An action that is accepted leaves the players and their order as they are.
pub apply-Seated :
    (shuffled : List ℕ → List (Option ℕ)) (a : Action) (m : Machine)
    → OnOk (λ n. SameSeats m.state n.state) (apply shuffled a m)
unfolding apply
apply-Seated shuffled a m = go m.state.phase
  where
    go : (phase : Phase) → OnOk (Seated m) (apply_in shuffled phase a m)
    go wait_blinds = apply_blind-Seated shuffled a m
    go next_hand = apply_blind-Seated shuffled a m
    go deal = keep_blinds-Seated m m.blinds_posted _ (apply_deal-SameSeats shuffled a m.state)
    go betting_round = keep_blinds-Seated m m.blinds_posted _ (apply_betting-SameSeats a m.state)
    go showdown_phase = keep_blinds-Seated m m.blinds_posted _ (apply_showdown-SameSeats a m.state)
    go settle = keep_blinds-Seated m [] _ (apply_settle-SameSeats a m.state)
