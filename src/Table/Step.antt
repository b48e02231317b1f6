-- ===== src/Table/Step.antt =====
-- `HandStateMachine.apply`, one function for each phase.
-- Every error is thrown before the first write, but for `deck_exhausted`, after which some community
-- cards are drawn, and `missing_card`, which is no error in the source.
use pokerhub.Prelude.{
  includes, Option, List, Bool, false, update_first, length, ◌-◌, leb, [], ◌∷◌, map, ltb, ◌==◌,
  none, true, ◌&&◌, ℕ, any, if◌then◌else◌, ◌++◌,
}
use pokerhub.Table.Bets.{find_player, place_bet, active_players, has_id}
use pokerhub.Table.Round.{finish_betting_round, advance_street}
use pokerhub.Table.Types.{
  err, deal, flop, preflop, ◌>>=◌, wait_blinds, next, river, turn, raise, showdown_phase, fold,
  Result, settle, check, Player, GameState, Action, bet, ok, Machine, post_blind, Phase,
  invalid_action, call, betting_round, next_hand,
}
use pokerhub.Table.Settle.{settle_pots}
use pokerhub.Table.Deal.{deal_holes, deal_community}
use pokerhub.Deck.{build_deck}

-- `blindsPosted.add(id)`
abbrev pub add_blind : ℕ → List ℕ → List ℕ
add_blind i posted = if includes i posted then posted else posted ++ i ∷ []

module _ (shuffled : List ℕ → List (Option ℕ)) where
  -- What follows the last blind: a new deck, two hole cards for everyone.
  unfoldable pub start_hand : GameState → Result GameState
  unfolding build_deck deal_holes
  start_hand s = deal_holes s.players (build_deck shuffled []) >>= λ (players, deck).
      ok (record s { players = players; deck = deck; phase = deal })

  -- `WAIT_BLINDS` and `NEXT_HAND`
  unfoldable pub apply_blind : Action → Machine → Result Machine
  unfolding find_player place_bet start_hand
  apply_blind (post_blind i amount) m = find_player i m.state >>= λ p.
      place_bet p amount m.state >>= λ s.
      let posted = add_blind p.id m.blinds_posted in
      if length posted == length s.players
      then (start_hand s >>= λ dealt. ok (record { state = dealt; blinds_posted = [] }))
      else ok (record { state = s; blinds_posted = posted })
  apply_blind _ m = err invalid_action

  -- `DEAL`
  unfoldable pub deal_street : GameState → Result GameState
  unfolding deal_community
  deal_street s = elim s.street [
    | flop ↦ deal_community shuffled 3 s
    | turn ↦ deal_community shuffled 1 s
    | river ↦ deal_community shuffled 1 s
    | _ ↦ ok s
  ]

  unfoldable pub apply_deal : Action → GameState → Result GameState
  unfolding deal_street
  apply_deal next s = deal_street s >>= λ t. ok (record t { phase = betting_round })
  apply_deal _ s = err invalid_action

-- `next` in a betting round.
unfoldable pub end_round : GameState → GameState
unfolding finish_betting_round advance_street
end_round s =
    let t = advance_street (finish_betting_round s) in
    elim s.street [ river ↦ record t { phase = showdown_phase } | _ ↦ record t { phase = deal } ]

abbrev pub set_folded : Player → Player
set_folded p = record p { folded = true }

-- The switch of `BETTING_ROUND`.
unfoldable pub apply_action : Action → GameState → Result GameState
unfolding find_player place_bet end_round
apply_action (post_blind i amount) s = find_player i s >>= λ p. place_bet p amount s
apply_action (bet i amount) s = find_player i s >>= λ p. place_bet p amount s
apply_action (raise i amount) s = find_player i s >>= λ p. place_bet p amount s
apply_action (call i) s = find_player i s >>= λ p. place_bet p (s.current_bet - p.bet) s
apply_action (check i) s = ok s
apply_action (fold i) s = find_player i s >>= λ p.
    ok (record s { players = update_first (has_id p.id) set_folded s.players })
apply_action next s = ok (end_round s)

abbrev pub is_betting : Phase → Bool
is_betting betting_round = true
is_betting _ = false

-- What follows the switch: with one active player or none the hand goes to its showdown.
unfoldable pub close_round : GameState → GameState
unfolding finish_betting_round active_players
close_round s =
    let finished =
      if any (λ p. ltb 0 p.bet) s.players
      then finish_betting_round s
      else record s { current_bet = 0 } in
    if is_betting s.phase && leb (length (active_players s)) 1
    then record finished { phase = showdown_phase }
    else s

unfoldable pub apply_betting : Action → GameState → Result GameState
unfolding apply_action close_round
apply_betting a s = apply_action a s >>= λ t. ok (close_round t)

-- `SHOWDOWN`
unfoldable pub apply_showdown : Action → GameState → Result GameState
unfolding settle_pots
apply_showdown next s = ok (record (settle_pots s) { phase = settle })
apply_showdown _ s = err invalid_action

abbrev pub reset_player : Player → Player
reset_player p = record p { folded = false; bet = 0; all_in = false; hole_cards = none }

-- `SETTLE`
unfoldable pub apply_settle : Action → GameState → Result GameState
apply_settle next s = ok (record s {
  players = map reset_player s.players;
  pot = 0;
  side_pots = [];
  current_bet = 0;
  community_cards = [];
  deck = [];
  street = preflop;
  phase = next_hand;
})
apply_settle _ s = err invalid_action

abbrev pub keep_blinds : List ℕ → Result GameState → Result Machine
keep_blinds posted r = r >>= λ s. ok (record { state = s; blinds_posted = posted })

module _ (shuffled : List ℕ → List (Option ℕ)) where
  -- The switch of `apply` on the phase.
  unfoldable pub apply_in : Phase → Action → Machine → Result Machine
  unfolding apply_blind apply_deal apply_betting apply_showdown apply_settle
  apply_in wait_blinds a m = apply_blind shuffled a m
  apply_in next_hand a m = apply_blind shuffled a m
  apply_in deal a m = keep_blinds m.blinds_posted (apply_deal shuffled a m.state)
  apply_in betting_round a m = keep_blinds m.blinds_posted (apply_betting a m.state)
  apply_in showdown_phase a m = keep_blinds m.blinds_posted (apply_showdown a m.state)
  apply_in settle a m = keep_blinds [] (apply_settle a m.state)

  unfoldable pub apply : Action → Machine → Result Machine
  unfolding apply_in
  apply a m = apply_in m.state.phase a m
