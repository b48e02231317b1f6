-- ===== src/Table/Round.antt =====
-- `finishBettingRound` and `advanceStreet`.
use pokerhub.Prelude.{
  Option, List, Bool, not, false, length, ◌-◌, leb, ◌*◌, [], ◌∷◌, some, map, ltb, ◌==◌, none, true,
  ℕ, if◌then◌else◌, filter, ◌++◌,
}
use pokerhub.Table.Types.{flop, preflop, river, turn, Player, GameState, Street, SidePot}
use pokerhub.Prelude.Sort.{sort_by, dedup, sort_ascending}
use pokerhub.Table.Bets.{active_players}
use pokerhub.Table.Chips.Sums.{chips}

abbrev pub lookup : ℕ → List (ℕ × ℕ) → Option ℕ
lookup k [] = none
lookup k ((j, v) ∷ m) = if j == k then some v else lookup k m

-- `contributions[id] = v`
unfoldable pub insert : ℕ → ℕ → List (ℕ × ℕ) → List (ℕ × ℕ)
insert player chips [] = (player, chips) ∷ []
insert player chips (entry ∷ rest) =
    let after = insert player chips rest in
    if entry.0 == player then (player, chips) ∷ rest else entry ∷ after

-- `for (const player of contributors) contributions[player.id] = level - previous;`
pub contribute : ℕ → List Player → List (ℕ × ℕ) → List (ℕ × ℕ)
unfolding insert
contribute share [] m = m
contribute share (p ∷ ps) m = contribute share ps (insert p.id share m)

-- The players that did not contribute are entered with 0.
pub contribute_none : List Player → List (ℕ × ℕ) → List (ℕ × ℕ)
unfolding insert
contribute_none [] m = m
contribute_none (p ∷ ps) m =
    contribute_none ps (elim (lookup p.id m) [ none ↦ insert p.id 0 m | some _ ↦ m ])

abbrev pub is_empty {ℓ} : {A : Type ℓ} → List A → Bool
is_empty [] = true
is_empty (_ ∷ _) = false

-- The side pot of one level, for the contributors, those of them that have not folded, and the
-- active players.
pub level_pot : ℕ → ℕ → List Player → List Player → List Player → SidePot
unfolding contribute contribute_none
level_pot level previous contributors contenders active =
    let contributions = contribute (level - previous) contributors [] in
    record {
      amount = (level - previous) * length contributors;
      players =
          map (λ c. c.id)
            (if is_empty contenders
              then if is_empty active then contributors else active
              else contenders);
      contributions =
          if is_empty contenders then contribute_none active contributions else contributions;
    }

-- The loop over the levels.
unfoldable pub level_pots : ℕ → List ℕ → List Player → List Player → List SidePot → List SidePot
unfolding level_pot
level_pots previous [] bettors active pots = pots
level_pots previous (level ∷ levels) bettors active pots =
    let contributors = filter (λ p. leb level p.bet) bettors in
    let contenders = filter (λ p. not p.folded) contributors in
    level_pots level levels bettors active (
      if (level - previous) * length contributors == 0
      then pots
      else pots ++ level_pot level previous contributors contenders active ∷ [])

abbrev pub clear_bet : Player → Player
clear_bet p = record p { bet = 0 }

abbrev pub bettors_of : GameState → List Player
bettors_of s = filter (λ p. ltb 0 p.bet) s.players

abbrev pub levels_of : List Player → List ℕ
levels_of bettors = sort_ascending (dedup (map (λ p. p.bet) bettors))

unfoldable pub finish_betting_round : GameState → GameState
unfolding level_pots sort_by dedup active_players
finish_betting_round s =
    if is_empty (bettors_of s) then record s { current_bet = 0 } else record s {
      side_pots =
          level_pots 0 (levels_of (bettors_of s)) (bettors_of s) (active_players s) s.side_pots;
      players = map clear_bet s.players;
      current_bet = 0;
    }

-- `ORDER[Math.min(index + 1, ORDER.length - 1)]`
unfoldable pub next_street : Street → Street
next_street preflop = flop
next_street flop = turn
next_street turn = river
next_street river = Street.showdown
next_street Street.showdown = Street.showdown

unfoldable pub advance_street : GameState → GameState
unfolding next_street
advance_street s = record s { street = next_street s.street }
