-- ===== src/Table/Deal.antt =====
-- `expectedCommunityCountBeforeDeal`, `ensureDeckCapacity`, `dealCommunity`, and the dealing of
-- hole cards. The deck holds numbers alone (`build_deck` puts in nothing else), so that the filter that
-- opens `ensureDeckCapacity` changes nothing and is left out. `shuffled` is `rng.shuffle`.
use pokerhub.Table.Types.{
  err, flop, already_dealt, ◌>>=◌, river, turn, missing_card, deck_exhausted, Result, Player,
  GameState, ok, insufficient_cards, Street,
}
use pokerhub.Prelude.{
  suc, Option, List, not, length, zero, [], ◌∷◌, some, ltb, ◌==◌, none, ◌&&◌, ℕ, if◌then◌else◌, pop,
  ◌++◌, Bool,
}
use pokerhub.Prelude.Int.{◌-ℤ◌, pos, eqb_ℤ}
use pokerhub.Prelude.Sort.{dedup}
use pokerhub.Deck.{available, build_deck, standard_deck}

unfoldable pub expected_count : Street → List ℕ → ℕ
expected_count flop community = 0
expected_count turn community = 3
expected_count river community = 4
expected_count _ community = length community

abbrev pub hole_cards_of : Player → List ℕ
hole_cards_of p = elim p.hole_cards [ none ↦ [] | some cards ↦ cards ]

pub all_hole_cards : List Player → List ℕ
all_hole_cards [] = []
all_hole_cards (p ∷ ps) = hole_cards_of p ++ all_hole_cards ps

-- The cards that `markUsed` sees, with repetitions.
pub marked : GameState → List ℕ
unfolding all_hole_cards
marked s = s.community_cards ++ all_hole_cards s.players

-- The set `used`.
pub used_cards : GameState → List ℕ
unfolding marked dedup
used_cards s = dedup (marked s)

-- The deck has as many cards as are left to deal, and at least `n`: the negation of the test of
-- `ensureDeckCapacity`.
unfoldable pub deck_fits : ℕ → GameState → Bool
unfolding used_cards standard_deck
deck_fits n s =
    eqb_ℤ (pos (length s.deck)) (pos (length standard_deck) -ℤ pos (length (used_cards s)))
    && not (ltb (length s.deck) n)

unfoldable pub ensure_deck_capacity : (List ℕ → List (Option ℕ)) → ℕ → GameState → Result GameState
unfolding deck_fits used_cards available build_deck
ensure_deck_capacity shuffled n s =
    if deck_fits n s
    then ok s
    else if ltb (length (available (used_cards s))) n
    then err insufficient_cards
    else ok (record s { deck = build_deck shuffled (used_cards s) })

-- The loop of `dealCommunity`.
unfoldable pub draw_cards : ℕ → GameState → Result GameState
unfolding pop
draw_cards zero s = ok s
draw_cards (suc n) s = elim (pop s.deck) [
  | none ↦ err deck_exhausted
  | some (card, deck) ↦
      draw_cards n (record s { deck = deck; community_cards = s.community_cards ++ card ∷ [] })
]

unfoldable pub deal_community : (List ℕ → List (Option ℕ)) → ℕ → GameState → Result GameState
unfolding expected_count ensure_deck_capacity draw_cards
deal_community shuffled n s =
    if length s.community_cards == expected_count s.street s.community_cards
    then ensure_deck_capacity shuffled n s >>= draw_cards n
    else err already_dealt

-- `for (const p of players) p.holeCards = [deck.pop()!, deck.pop()!];`
unfoldable pub deal_holes : List Player → List ℕ → Result (List Player × List ℕ)
unfolding pop
deal_holes [] deck = ok ([], deck)
deal_holes (p ∷ ps) deck = elim (pop deck) [
  | none ↦ err missing_card
  | some (first, deck1) ↦ elim (pop deck1) [
    | none ↦ err missing_card
    | some (second, deck2) ↦ deal_holes ps deck2 >>= λ (dealt, left).
        ok (record p { hole_cards = some (first ∷ second ∷ []) } ∷ dealt, left)
  ]
]
