-- ===== src/Table/Chips/Showdown.antt =====
-- Proofs about the showdown: the payments, the bets and the pot.
use pokerhub.Table.Types.{SidePot, Player, GameState}
use pokerhub.Prelude.{
  length, List, ℕ, inr, [], ltb, refl, ◌∷◌, inl, Bool-cases, map, ◌*◌, ◌/◌, ◌-◌, ◌∙◌, sym, ◌≡◌,
  arith,
}
use pokerhub.Table.Settle.{
  scores_of, pay_pots, add_chips, is_active_id, pay_all, contenders_of, pay_pot, settle_pots, pay,
  active_of, winners_of, pots_of, split_pot,
}
use pokerhub.Table.Round.{is_empty}
use pokerhub.Table.Chips.Sums.{side_total, sum_by-update_same, bets}

bets-pay : (n : ℕ) (w : Player) (players : List Player) → bets (pay n w players) ≡ bets players
unfolding pay
bets-pay n w players =
    sum_by-update_same (λ p. p.bet) (is_active_id w.id) (add_chips n) players (λ p. refl)

bets-pay_all : (n : ℕ) (ws players : List Player) → bets (pay_all n ws players) ≡ bets players
unfolding pay_all
bets-pay_all n [] players = refl
bets-pay_all n (w ∷ ws) players = bets-pay_all n ws (pay n w players) ∙ bets-pay n w players

bets-split_pot :
    (amount : ℕ) (ws players : List Player) → bets (split_pot amount ws players) ≡ bets players
unfolding split_pot
bets-split_pot amount [] players = refl
bets-split_pot amount (w ∷ ws) players =
    let share = amount / length (w ∷ ws) in
    let remainder = amount - share * length (w ∷ ws) in
    let paid = pay_all share (w ∷ ws) players in
    elim (Bool-cases (ltb 0 remainder)) [
      | inl more ↦ rw more (bets-pay remainder w paid ∙ bets-pay_all share (w ∷ ws) players)
      | inr exact ↦ rw exact (bets-pay_all share (w ∷ ws) players)
    ]

bets-pay_pots :
    (scores : List (ℕ × ℕ)) (pots : List SidePot) (players : List Player)
    → bets (pay_pots scores pots players) ≡ bets players
unfolding pay_pots pay_pot
bets-pay_pots scores [] players = refl
bets-pay_pots scores (pot ∷ pots) players =
    bets-pay_pots scores pots (pay_pot scores pot players)
    ∙ bets-split_pot pot.amount (winners_of scores (contenders_of pot players)) players

pub bets-settle_pots : (s : GameState) → bets (settle_pots s).players ≡ bets s.players
unfolding settle_pots
bets-settle_pots s = elim (Bool-cases (is_empty (active_of s.players))) [
  | inl nobody ↦ rw nobody refl
  | inr somebody ↦
      rw somebody
        (bets-pay_pots (scores_of s.community_cards (active_of s.players) []) (pots_of s) s.players)
]

-- With no bet outstanding the pots to pay add up to the pot.
pub side_total-pots_of :
    (s : GameState) → s.pot ≡ side_total s.side_pots → side_total (pots_of s) ≡ s.pot
unfolding pots_of
side_total-pots_of s funded = go s.side_pots funded
  where
    go :
        (pots : List SidePot)
        → s.pot ≡ side_total pots
        → side_total (elim pots [
          | [] ↦
              let active = active_of s.players in
              record {
                amount = s.pot;
                players = map (λ p. p.id) active;
                contributions = map (λ p. (p.id, 0)) active;
              }
              ∷ []
          | pot ∷ pots ↦ pot ∷ pots
        ])
          ≡ s.pot
    go [] e = omega arith
    go (pot ∷ pots) e = sym e
