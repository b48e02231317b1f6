-- ===== src/Table/Seats.antt =====
-- Proofs about the identifiers of a hand's players.
use pokerhub.Table.Deal.{
  deal_holes, deck_fits, used_cards, expected_count, draw_cards, ensure_deck_capacity,
  deal_community,
}
use pokerhub.Prelude.{
  update_first, inr, pop, Bool-cases, ◌-◌, ltb, ◌==◌, List, map, inl, ap₂, ◌≡◌, Option-cases, suc,
  ◌/◌, ◌++◌, ◌∷◌, Bool, refl, ap, length, zero, ◌*◌, Option, [], ℕ, ◌∙◌,
}
use pokerhub.Table.Types.{
  Player, insufficient_cards, not_positive, Result, GameState, OnOk-bind, err, ◌>>=◌, exceeds_stack,
  ok, SidePot, already_dealt, OnOk-if, OnOk,
}
use pokerhub.Table.Settle.{
  scores_of, contenders_of, pots_of, pay_pot, pay, settle_pots, add_chips, active_of, winners_of,
  pay_all, split_pot, is_active_id, pay_pots,
}
use pokerhub.Table.Round.{bettors_of, clear_bet, finish_betting_round, is_empty}
use pokerhub.Table.Bets.{place_bet, has_id, commit_chips}
use pokerhub.Deck.{available}

abbrev pub ids : List Player → List ℕ
ids = map (λ p. p.id)

-- The same players, in the same order.
abbrev pub SameSeats : GameState → GameState → Type 0
SameSeats s t = ids t.players ≡ ids s.players

pub ids-map :
    (f : Player → Player) (ps : List Player)
    → ((p : Player) → (f p).id ≡ p.id)
    → ids (map f ps) ≡ ids ps
ids-map f [] same = refl
ids-map f (p ∷ ps) same = ap₂ (◌∷◌) (same p) (ids-map f ps same)

pub ids-update_first :
    (test : Player → Bool) (f : Player → Player) (ps : List Player)
    → ((p : Player) → (f p).id ≡ p.id)
    → ids (update_first test f ps) ≡ ids ps
ids-update_first test f [] same = refl
ids-update_first test f (p ∷ ps) same = elim (Bool-cases (test p)) [
  | inl hit ↦ rw hit (ap (λ i. i ∷ ids ps) (same p))
  | inr miss ↦ rw miss (ap (◌∷◌ p.id) (ids-update_first test f ps same))
]

ids-pay_all : (n : ℕ) (winners ps : List Player) → ids (pay_all n winners ps) ≡ ids ps
unfolding pay_all pay
ids-pay_all n [] ps = refl
ids-pay_all n (w ∷ ws) ps =
    ids-pay_all n ws (pay n w ps)
    ∙ ids-update_first (is_active_id w.id) (add_chips n) ps (λ p. refl)

ids-split_pot : (amount : ℕ) (winners ps : List Player) → ids (split_pot amount winners ps) ≡ ids ps
unfolding split_pot pay
ids-split_pot amount [] ps = refl
ids-split_pot amount (w ∷ ws) ps =
    let share = amount / length (w ∷ ws) in
    let remainder = amount - share * length (w ∷ ws) in
    let paid = ids-pay_all share (w ∷ ws) ps in
    elim (Bool-cases (ltb 0 remainder)) [
      | inl odd ↦ rw odd (
          ids-update_first (is_active_id w.id) (add_chips remainder) (pay_all share (w ∷ ws) ps)
            (λ p. refl)
          ∙ paid)
      | inr even ↦ rw even paid
    ]

ids-pay_pots :
    (scores : List (ℕ × ℕ)) (pots : List SidePot) (ps : List Player)
    → ids (pay_pots scores pots ps) ≡ ids ps
unfolding pay_pots pay_pot
ids-pay_pots scores [] ps = refl
ids-pay_pots scores (pot ∷ pots) ps =
    ids-pay_pots scores pots (pay_pot scores pot ps)
    ∙ ids-split_pot pot.amount (winners_of scores (contenders_of pot ps)) ps

pub settle_pots-SameSeats : (s : GameState) → SameSeats s (settle_pots s)
unfolding settle_pots
settle_pots-SameSeats s = elim (Bool-cases (is_empty (active_of s.players))) [
  | inl nobody ↦ rw nobody refl
  | inr somebody ↦
      rw somebody
        (ids-pay_pots (scores_of s.community_cards (active_of s.players) []) (pots_of s) s.players)
]

pub finish_betting_round-SameSeats : (s : GameState) → SameSeats s (finish_betting_round s)
unfolding finish_betting_round
finish_betting_round-SameSeats s = elim (Bool-cases (is_empty (bettors_of s))) [
  | inl nobody ↦ rw nobody refl
  | inr somebody ↦ rw somebody (ids-map clear_bet s.players (λ p. refl))
]

pub place_bet-SameSeats :
    (p : Player) (amount : ℕ) (s : GameState) → OnOk (SameSeats s) (place_bet p amount s)
unfolding place_bet
place_bet-SameSeats p amount s =
    OnOk-if (SameSeats s) (amount == 0) (err not_positive) _ (λ _. tt)
      λ _.
        OnOk-if (SameSeats s) (ltb p.stack amount) (err exceeds_stack) _ (λ _. tt)
          λ _. ids-update_first (has_id p.id) (commit_chips amount) s.players (λ q. refl)

draw_cards-SameSeats : (n : ℕ) (s : GameState) → OnOk (SameSeats s) (draw_cards n s)
unfolding draw_cards
draw_cards-SameSeats zero s = refl
draw_cards-SameSeats (suc n) s = elim (Option-cases (pop s.deck)) [
  | inl empty ↦ rw (empty, draw_cards, OnOk) tt
  | inr ((card, deck), e) ↦
      rw (e, draw_cards)
        (draw_cards-SameSeats n
          (record s { deck = deck; community_cards = s.community_cards ++ card ∷ [] }))
]

ensure_deck_capacity-SameSeats :
    (shuffled : List ℕ → List (Option ℕ)) (n : ℕ) (s : GameState)
    → OnOk (SameSeats s) (ensure_deck_capacity shuffled n s)
unfolding ensure_deck_capacity
ensure_deck_capacity-SameSeats shuffled n s =
    OnOk-if (SameSeats s) (deck_fits n s) (ok s) _ (λ _. refl)
      λ _.
        OnOk-if (SameSeats s) (ltb (length (available (used_cards s))) n) (err insufficient_cards) _
          (λ _. tt) λ _. refl

pub SameSeats-trans :
    (s t : GameState) (r : Result GameState)
    → SameSeats s t
    → OnOk (SameSeats t) r
    → OnOk (SameSeats s) r
SameSeats-trans s t (ok u) h k = k ∙ h
SameSeats-trans s t (err e) h k = tt

pub deal_community-SameSeats :
    (shuffled : List ℕ → List (Option ℕ)) (n : ℕ) (s : GameState)
    → OnOk (SameSeats s) (deal_community shuffled n s)
unfolding deal_community
deal_community-SameSeats shuffled n s =
    OnOk-if (SameSeats s) (length s.community_cards == expected_count s.street s.community_cards)
      (ensure_deck_capacity shuffled n s >>= draw_cards n) (err already_dealt)
      (λ _.
        OnOk-bind (SameSeats s) (SameSeats s) (ensure_deck_capacity shuffled n s) (draw_cards n)
          (ensure_deck_capacity-SameSeats shuffled n s)
          λ t k. SameSeats-trans s t (draw_cards n t) k (draw_cards-SameSeats n t))
      (λ _. tt)

abbrev pub HoldsIds : List Player → List Player × List ℕ → Type 0
HoldsIds ps (dealt, left) = ids dealt ≡ ids ps

pub deal_holes-HoldsIds :
    (ps : List Player) (deck : List ℕ) → OnOk (HoldsIds ps) (deal_holes ps deck)
unfolding deal_holes
deal_holes-HoldsIds [] deck = refl
deal_holes-HoldsIds (p ∷ ps) deck = elim (Option-cases (pop deck)) [
  | inl empty ↦ rw (empty, deal_holes, OnOk) tt
  | inr ((first, deck1), e) ↦ elim (Option-cases (pop deck1)) [
    | inl empty ↦ rw (e, deal_holes, OnOk) (rw (empty, OnOk) tt)
    | inr ((second, deck2), e2) ↦
        rw (e, deal_holes, OnOk)
          (rw (e2, OnOk)
            (OnOk-bind (HoldsIds ps) (HoldsIds (p ∷ ps)) (deal_holes ps deck2) _
              (deal_holes-HoldsIds ps deck2) λ (dealt, left) h. ap (◌∷◌ p.id) h))
  ]
]
