-- ===== src/Tests/Hands.antt =====
-- Hands of five and seven cards.
use pokerhub.Prelude.{◌≤◌, ◌<◌, ℕ, ap, List, ◌≡◌, ◌≢◌, length, refl, arith, [], ◌∷◌, some, inl, inr}
use pokerhub.HandRank.Best.{Picks, done, evaluate_hand_max, evaluate_hand_attained, skip, keep}
use pokerhub.HandRank.{
  score, evaluate5, ranks_of, straight_flush, evaluate_hand, straight, pair, high_card, flush,
  full_house,
}
use pokerhub.HandRank.Misrank.{high_card_beats_rest}
use pokerhub.Prelude.Sort.{sort_by}
use pokerhub.HandRank.Score.{score-LexLess}

-- 10 to A of one suit, and a high card of 7, 5, 4, 3, 2 (rank 0 is the deuce).
abbrev royal : List ℕ
royal = 32 ∷ 36 ∷ 40 ∷ 44 ∷ 48 ∷ []

abbrev seven_high : List ℕ
seven_high = 20 ∷ 13 ∷ 8 ∷ 4 ∷ 0 ∷ []

royal_value : evaluate5 royal ≡ record { rank = straight_flush; kickers = 12 ∷ [] }
unfolding evaluate5
royal_value = refl

seven_high_value :
    evaluate5 seven_high ≡ record { rank = high_card; kickers = 5 ∷ 3 ∷ 2 ∷ 1 ∷ 0 ∷ [] }
unfolding evaluate5
seven_high_value = refl

wheel_value : evaluate5 (48 ∷ 0 ∷ 5 ∷ 8 ∷ 12 ∷ []) ≡ record { rank = straight; kickers = 3 ∷ [] }
unfolding evaluate5
wheel_value = refl

full_house_value :
    evaluate5 (0 ∷ 1 ∷ 2 ∷ 40 ∷ 41 ∷ []) ≡ record { rank = full_house; kickers = 0 ∷ 10 ∷ [] }
unfolding evaluate5
full_house_value = refl

not_flush : (evaluate5 royal).rank ≢ flush
unfolding evaluate5
not_flush e = cc

not_high_card : (evaluate5 royal).rank ≢ high_card
unfolding evaluate5
not_high_card e = cc

ranks_seven_high : ranks_of seven_high ≡ 5 ∷ 3 ∷ 2 ∷ 1 ∷ 0 ∷ []
unfolding sort_by
ranks_seven_high = refl

high_card_beats_rest_example : score (evaluate5 royal) < score (evaluate5 seven_high)
high_card_beats_rest_example =
    high_card_beats_rest royal seven_high 5 (3 ∷ 2 ∷ 1 ∷ 0 ∷ []) (omega arith) not_flush
      not_high_card (omega arith) refl (ap (λ v. v.rank) seven_high_value) ranks_seven_high
      (omega arith)

score-LexLess_example :
    score (record { rank = pair; kickers = 3 ∷ 9 ∷ 8 ∷ 7 ∷ [] })
    < score (record { rank = pair; kickers = 3 ∷ 10 ∷ 2 ∷ 1 ∷ [] })
score-LexLess_example =
    score-LexLess (record { rank = pair; kickers = 3 ∷ 9 ∷ 8 ∷ 7 ∷ [] })
      (record { rank = pair; kickers = 3 ∷ 10 ∷ 2 ∷ 1 ∷ [] }) refl refl (omega arith)
      (inr (refl, inl (omega arith)))

abbrev seven_cards : List ℕ
seven_cards = 32 ∷ 1 ∷ 36 ∷ 40 ∷ 44 ∷ 2 ∷ 48 ∷ []

evaluate_seven : evaluate_hand seven_cards ≡ some 647010
unfolding evaluate_hand
evaluate_seven = refl

evaluate_hand_max_example : score (evaluate5 royal) ≤ 647010
evaluate_hand_max_example =
    evaluate_hand_max seven_cards 647010 royal evaluate_seven
      (keep (skip (keep (keep (keep (skip (keep done))))))) refl

evaluate_hand_attained_example :
    (five : List ℕ) × Picks five seven_cards
    × (length five ≡ 5)
    × (evaluate_hand seven_cards ≡ some (score (evaluate5 five)))
evaluate_hand_attained_example = evaluate_hand_attained seven_cards (omega arith)
