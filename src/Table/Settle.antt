-- ===== src/Table/Settle.antt =====
-- `settlePots` of `shared/poker/sidePots.ts`, over the state of the hand.
use pokerhub.Prelude.{
  includes, max, ◌/◌, List, Bool, not, update_first, length, ◌-◌, ◌*◌, [], ◌∷◌, some, map, ltb,
  ◌==◌, none, ◌+◌, ◌&&◌, ℕ, if◌then◌else◌, filter, ◌++◌,
}
use pokerhub.Table.Round.{insert, is_empty, lookup}
use pokerhub.HandRank.{rank_or_zero, evaluate_hand}
use pokerhub.Table.Types.{Player, GameState, SidePot}

abbrev pub cards_of : Player → List ℕ → List ℕ
cards_of p board = elim p.hole_cards [ none ↦ board | some hole ↦ hole ++ board ]

-- A player's entry in `scores`: 0 where `evaluateHand` throws.
pub hand_score : List ℕ → Player → ℕ
unfolding evaluate_hand
hand_score board p = rank_or_zero (evaluate_hand (cards_of p board))

-- `scores`, with one entry for each identifier: a later `set` replaces the value of an earlier one.
pub scores_of : List ℕ → List Player → List (ℕ × ℕ) → List (ℕ × ℕ)
unfolding hand_score insert
scores_of board [] m = m
scores_of board (p ∷ ps) m = scores_of board ps (insert p.id (hand_score board p) m)

-- `scores.get(p.id)!`, which is there for every active player.
abbrev pub score_in : List (ℕ × ℕ) → Player → ℕ
score_in scores p = rank_or_zero (lookup p.id scores)

-- `Math.max(...contenders.map(...))`, of scores that are at least 0.
unfoldable pub best_score : List (ℕ × ℕ) → List Player → ℕ
best_score scores [] = 0
best_score scores (p ∷ ps) = max (score_in scores p) (best_score scores ps)

-- Adding chips to the stacks of the winners, who are objects of `state.players` and not folded. A player
-- is told by identifier and by being active; identifiers of active players are unique.
abbrev pub is_active_id : ℕ → Player → Bool
is_active_id i p = not p.folded && p.id == i

abbrev pub add_chips : ℕ → Player → Player
add_chips n p = record p { stack = p.stack + n }

unfoldable pub pay : ℕ → Player → List Player → List Player
pay n w = update_first (is_active_id w.id) (add_chips n)

unfoldable pub pay_all : ℕ → List Player → List Player → List Player
unfolding pay
pay_all n [] players = players
pay_all n (w ∷ ws) players = pay_all n ws (pay n w players)

abbrev pub active_of : List Player → List Player
active_of = filter (λ p. not p.folded)

-- The contenders of a pot.
unfoldable pub contenders_of : SidePot → List Player → List Player
contenders_of pot players = filter (λ p. includes p.id pot.players) (active_of players)

unfoldable pub winners_of : List (ℕ × ℕ) → List Player → List Player
unfolding best_score
winners_of scores contenders =
    filter (λ p. score_in scores p == best_score scores contenders) contenders

-- The division of a pot among its winners; with no contender the pot is passed over.
unfoldable pub split_pot : ℕ → List Player → List Player → List Player
unfolding pay pay_all
split_pot amount [] players = players
split_pot amount (w ∷ ws) players =
    let share = amount / length (w ∷ ws) in
    let remainder = amount - share * length (w ∷ ws) in
    let paid = pay_all share (w ∷ ws) players in
    if ltb 0 remainder then pay remainder w paid else paid

-- One round of the loop over the pots.
unfoldable pub pay_pot : List (ℕ × ℕ) → SidePot → List Player → List Player
unfolding contenders_of winners_of split_pot
pay_pot scores pot players =
    split_pot pot.amount (winners_of scores (contenders_of pot players)) players

unfoldable pub pay_pots : List (ℕ × ℕ) → List SidePot → List Player → List Player
unfolding pay_pot
pay_pots scores [] players = players
pay_pots scores (pot ∷ pots) players = pay_pots scores pots (pay_pot scores pot players)

-- The pots to pay: the side pots, or one pot of all active players.
unfoldable pub pots_of : GameState → List SidePot
pots_of s = elim s.side_pots [
  | [] ↦
      let active = active_of s.players in
      record {
        amount = s.pot;
        players = map (λ p. p.id) active;
        contributions = map (λ p. (p.id, 0)) active;
      }
      ∷ []
  | pot ∷ pots ↦ pot ∷ pots
]

unfoldable pub settle_pots : GameState → GameState
unfolding scores_of pay_pots pots_of
settle_pots s =
    let active = active_of s.players in
    if is_empty active then s else record s {
      players = pay_pots (scores_of s.community_cards active []) (pots_of s) s.players;
      pot = 0;
      side_pots = [];
    }
