-- ===== src/Table/Bets.antt =====
-- `findPlayer`, `activePlayers` and `placeBet`. An error leaves the state as it was: both throw
-- before they write.
use pokerhub.Table.Types.{
  unknown_player, Player, err, GameState, Result, not_positive, ok, exceeds_stack,
}
use pokerhub.Prelude.{
  ℕ, some, if◌then◌else◌, ltb, List, Bool, not, ◌==◌, none, filter, update_first, ◌+◌, true, find,
  ◌-◌,
}

abbrev pub has_id : ℕ → Player → Bool
has_id i p = p.id == i

unfoldable pub find_player : ℕ → GameState → Result Player
find_player i s = elim (find (has_id i) s.players) [ none ↦ err unknown_player | some p ↦ ok p ]

unfoldable pub active_players : GameState → List Player
active_players s = filter (λ p. not p.folded) s.players

-- The writes of `placeBet` to its player.
pub commit_chips : ℕ → Player → Player
commit_chips amount p = record p {
  stack = p.stack - amount;
  bet = p.bet + amount;
  all_in = if p.stack - amount == 0 then true else p.all_in;
}

-- `placeBet(player, amount)` for the player that `findPlayer` returned, the first with its identifier.
unfoldable pub place_bet : Player → ℕ → GameState → Result GameState
unfolding commit_chips
place_bet p amount s =
    if amount == 0
    then err not_positive
    else if ltb p.stack amount
    then err exceeds_stack
    else ok (record s {
      players = update_first (has_id p.id) (commit_chips amount) s.players;
      pot = s.pot + amount;
      current_bet = if ltb s.current_bet (p.bet + amount) then p.bet + amount else s.current_bet;
    })
