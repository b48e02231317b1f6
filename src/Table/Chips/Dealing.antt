-- ===== src/Table/Chips/Dealing.antt =====
-- Proofs about the chips in bets and in dealing.
use pokerhub.Table.Chips.Sums.{
  stacks, sum_by-update_first, side_total, bets, IsFunded, chips, find_player-find,
}
use pokerhub.Prelude.{
  ltb, le_of_not_ltb, true, ℕ, arith, find, ◌≤◌, ◌+◌, ◌≡◌, false, some, refl, ◌==◌, Bool, pop, inr,
  ◌∙◌, inl, [], suc, if◌then◌else◌, zero, Option, Option-cases, ◌++◌, ◌∷◌, List, length,
}
use pokerhub.Table.Types.{
  OnOk-if, Phase, GameState, Player, showdown_phase, OnOk, ok, OnOk-bind, err, Street, Result,
  preflop, already_dealt, flop, river, turn, ◌>>=◌, insufficient_cards, next_hand, wait_blinds,
}
use pokerhub.Table.Bets.{has_id, commit_chips, place_bet, find_player}
use pokerhub.Table.Deal.{
  deal_community, deal_holes, ensure_deck_capacity, draw_cards, expected_count, deck_fits,
  used_cards,
}
use pokerhub.Table.Step.{deal_street}
use pokerhub.Deck.{build_deck, available}

abbrev pub is_showdown : Phase → Bool
is_showdown showdown_phase = true
is_showdown _ = false

abbrev pub is_blinds : Phase → Bool
is_blinds wait_blinds = true
is_blinds next_hand = true
is_blinds _ = false

-- The pot is funded, and at the showdown no bet is outstanding.
abbrev pub IsSound : GameState → Type 0
IsSound s = IsFunded s × (is_showdown s.phase ≡ true → bets s.players ≡ 0)

-- `t` has the chips of `s` in the same places.
abbrev pub Alike : GameState → GameState → Type 0
Alike s t =
    (stacks t.players ≡ stacks s.players)
    × (bets t.players ≡ bets s.players)
    × (t.pot ≡ s.pot)
    × (side_total t.side_pots ≡ side_total s.side_pots)

pub place_bet-chips :
    (p : Player) (amount : ℕ) (s : GameState)
    → find (has_id p.id) s.players ≡ some p
    → OnOk
        (λ t.
          (chips t ≡ chips s)
          × (t.pot + side_total s.side_pots + bets s.players
              ≡ s.pot + side_total t.side_pots + bets t.players)
          × (t.phase ≡ s.phase))
        (place_bet p amount s)
unfolding place_bet
place_bet-chips p amount s found =
    OnOk-if _ (amount == 0) _ _ (λ _. tt)
      λ _.
        OnOk-if _ (ltb p.stack amount) _ _ (λ _. tt)
          λ enough.
            let covered : amount ≤ p.stack = le_of_not_ltb p.stack amount enough in
            let stacks_after =
              sum_by-update_first (λ q. q.stack) (has_id p.id) (commit_chips amount) s.players p
                found in
            let bets_after =
              sum_by-update_first (λ q. q.bet) (has_id p.id) (commit_chips amount) s.players p
                found in
            (omega (arith, covered, stacks_after), omega (arith, bets_after), refl)

abbrev pub Keeps : GameState → GameState → Type 0
Keeps s t = Alike s t × (t.phase ≡ s.phase)

Keeps-self : (s : GameState) → Keeps s s
Keeps-self s = ((refl, refl, refl, refl), refl)

draw_cards-Keeps : (n : ℕ) (s : GameState) → OnOk (Keeps s) (draw_cards n s)
unfolding draw_cards
draw_cards-Keeps zero s = Keeps-self s
draw_cards-Keeps (suc n) s = elim (Option-cases (pop s.deck)) [
  | inl empty ↦ rw (empty, draw_cards, OnOk) tt
  | inr ((card, deck), e) ↦
      rw (e, draw_cards, OnOk)
        (draw_cards-Keeps n
          (record s { deck = deck; community_cards = s.community_cards ++ card ∷ [] }))
]

ensure_deck_capacity-Keeps :
    (shuffled : List ℕ → List (Option ℕ)) (n : ℕ) (s : GameState)
    → OnOk (Keeps s) (ensure_deck_capacity shuffled n s)
unfolding ensure_deck_capacity
ensure_deck_capacity-Keeps shuffled n s =
    let rebuilt = record s { deck = build_deck shuffled (used_cards s) } in
    let short = ltb (length (available (used_cards s))) n in
    OnOk-if (Keeps s) (deck_fits n s) (ok s) (if short then err insufficient_cards else ok rebuilt)
      (λ _. Keeps-self s)
      λ _. OnOk-if (Keeps s) short (err insufficient_cards) (ok rebuilt) (λ _. tt) λ _. Keeps-self s

Keeps-trans :
    (s t : GameState) (r : Result GameState) → Keeps s t → OnOk (Keeps t) r → OnOk (Keeps s) r
Keeps-trans s t (ok u) (a, ph) (b, qh) = ((b.0 ∙ a.0, b.1 ∙ a.1, b.2 ∙ a.2, b.3 ∙ a.3), qh ∙ ph)
Keeps-trans s t (err e) k h = tt

deal_community-Keeps :
    (shuffled : List ℕ → List (Option ℕ)) (n : ℕ) (s : GameState)
    → OnOk (Keeps s) (deal_community shuffled n s)
unfolding deal_community
deal_community-Keeps shuffled n s =
    OnOk-if (Keeps s) (length s.community_cards == expected_count s.street s.community_cards)
      (ensure_deck_capacity shuffled n s >>= draw_cards n) (err already_dealt)
      (λ _.
        OnOk-bind (Keeps s) (Keeps s) (ensure_deck_capacity shuffled n s) (draw_cards n)
          (ensure_deck_capacity-Keeps shuffled n s)
          λ t k. Keeps-trans s t (draw_cards n t) k (draw_cards-Keeps n t))
      (λ _. tt)

pub deal_street-Keeps :
    (shuffled : List ℕ → List (Option ℕ)) (s : GameState) → OnOk (Keeps s) (deal_street shuffled s)
unfolding deal_street
deal_street-Keeps shuffled s = go s.street
  where
    go :
        (street : Street)
        → OnOk (Keeps s) (elim street [
          | flop ↦ deal_community shuffled 3 s
          | turn ↦ deal_community shuffled 1 s
          | river ↦ deal_community shuffled 1 s
          | _ ↦ ok s
        ])
    go preflop = Keeps-self s
    go flop = deal_community-Keeps shuffled 3 s
    go turn = deal_community-Keeps shuffled 1 s
    go river = deal_community-Keeps shuffled 1 s
    go Street.showdown = Keeps-self s

abbrev pub SameSums : List Player → List Player × List ℕ → Type 0
SameSums ps (dealt, left) = (stacks dealt ≡ stacks ps) × (bets dealt ≡ bets ps)

pub deal_holes-SameSums :
    (ps : List Player) (deck : List ℕ) → OnOk (SameSums ps) (deal_holes ps deck)
unfolding deal_holes
deal_holes-SameSums [] deck = (refl, refl)
deal_holes-SameSums (p ∷ ps) deck = elim (Option-cases (pop deck)) [
  | inl empty ↦ rw (empty, deal_holes, OnOk) tt
  | inr ((first, deck1), e) ↦ elim (Option-cases (pop deck1)) [
    | inl empty ↦ rw (e, deal_holes, OnOk) (rw (empty, OnOk) tt)
    | inr ((second, deck2), e2) ↦
        rw (e, deal_holes, OnOk)
          (rw (e2, OnOk)
            (OnOk-bind (SameSums ps) (SameSums (p ∷ ps)) (deal_holes ps deck2) _
              (deal_holes-SameSums ps deck2)
              λ (dealt, left) h. (omega (arith, h.0), omega (arith, h.1))))
  ]
]

-- What a bet keeps: the chips in all, and how far the pot is funded.
abbrev pub BetKeeps : GameState → GameState → Type 0
BetKeeps s t =
    (chips t ≡ chips s)
    × (t.pot + side_total s.side_pots + bets s.players
        ≡ s.pot + side_total t.side_pots + bets t.players)
    × (t.phase ≡ s.phase)

pub find_player-found :
    (i : ℕ) (s : GameState) → OnOk (λ p. find (has_id p.id) s.players ≡ some p) (find_player i s)
find_player-found i s = go (find_player i s) refl
  where
    go :
        (r : Result Player)
        → find_player i s ≡ r
        → OnOk (λ p. find (has_id p.id) s.players ≡ some p) r
    go (ok p) e = find_player-find i s e
    go (err _) e = tt

-- `findPlayer` and then `placeBet`, for an amount that may depend on the player.
pub bet-BetKeeps :
    (i : ℕ) (amount : Player → ℕ) (s : GameState)
    → OnOk (BetKeeps s) (find_player i s >>= λ p. place_bet p (amount p) s)
bet-BetKeeps i amount s =
    OnOk-bind (λ p. find (has_id p.id) s.players ≡ some p) (BetKeeps s) (find_player i s)
      (λ p. place_bet p (amount p) s) (find_player-found i s)
      λ p found. place_bet-chips p (amount p) s found
