-- ===== src/HandRank.antt =====
-- Hand evaluation, `shared/poker/sidePots.ts`: `score`, `evaluate5` and `evaluateHand`.
-- A card is a number below 52, its rank `card / 4` and its suit `card % 4`. `straightHigh === -1` is
-- `none`. `evaluate5` is only ever called on five cards, so its reads `counts[0]` and `counts[1]?.`
-- fall outside a list only where the source reads `undefined`, which is unequal to every count.
pub mod Best
pub mod Score
pub mod Shape
pub mod Misrank
use pokerhub.Prelude.{
  find, [], not, some, true, zero, ◌/◌, List, Bool, map, ◌+◌, suc, if◌then◌else◌, leb, ◌++◌, ◌&&◌,
  ◌%◌, ◌∷◌, ◌==◌, Option, ◌*◌, includes, none, take, get_elem?, ltb, filter, length, ℕ, all, false,
}
use pokerhub.Prelude.Sort.{dedup, sort_by, sort_descending, sort_ascending}

pub data HandRank : Type 0 where
  high_card pair two_pair three_of_a_kind straight flush full_house four_of_a_kind straight_flush :
      HandRank

pub rank_number : HandRank → ℕ
rank_number high_card = 0
rank_number pair = 1
rank_number two_pair = 2
rank_number three_of_a_kind = 3
rank_number straight = 4
rank_number flush = 5
rank_number full_house = 6
rank_number four_of_a_kind = 7
rank_number straight_flush = 8

pub record HandValue : Type 0 where
  pub rank : HandRank
  pub kickers : List ℕ

abbrev pub base : ℕ
base = 15

-- The loop of `score` over the kickers.
pub score_from : ℕ → List ℕ → ℕ
score_from s [] = s
score_from s (k ∷ ks) = score_from (s * base + k) ks

pub score : HandValue → ℕ
unfolding score_from rank_number
score v = score_from (rank_number v.rank) v.kickers

-- The loop over windows of five ascending ranks: the last window that spans four wins.
pub straight_window : Option ℕ → List ℕ → Option ℕ
straight_window found (a ∷ b ∷ c ∷ d ∷ e ∷ rest) =
    straight_window (if e == a + 4 then some e else found) (b ∷ c ∷ d ∷ e ∷ rest)
straight_window found _ = found

-- Wheel straight A2345
pub wheel : List ℕ → Option ℕ → Option ℕ
wheel unique (some high) = some high
wheel unique none =
    if includes 12 unique
      && includes 0 unique
      && includes 1 unique
      && includes 2 unique
      && includes 3 unique
    then some 3
    else none

pub straight_high : List ℕ → Option ℕ
unfolding straight_window wheel sort_by dedup
straight_high ranks =
    let unique = sort_ascending (dedup ranks) in wheel unique (straight_window none unique)

-- `countMap.set(r, (countMap.get(r) ?? 0) + 1)` on the entries in insertion order.
pub add_count : ℕ → List (ℕ × ℕ) → List (ℕ × ℕ)
add_count r [] = (r, 1) ∷ []
add_count r ((q, n) ∷ m) = if q == r then (q, n + 1) ∷ m else (q, n) ∷ add_count r m

pub count_ranks : List (ℕ × ℕ) → List ℕ → List (ℕ × ℕ)
unfolding add_count
count_ranks m [] = m
count_ranks m (r ∷ rs) = count_ranks (add_count r m) rs

-- The comparator of `counts`: higher counts first, then higher ranks.
abbrev pub count_before : ℕ × ℕ → ℕ × ℕ → Bool
count_before a b = if a.1 == b.1 then leb b.0 a.0 else leb b.1 a.1

pub counts_of : List ℕ → List (ℕ × ℕ)
unfolding sort_by count_ranks
counts_of ranks = sort_by count_before (count_ranks [] ranks)

abbrev pub entry_at : List (ℕ × ℕ) → ℕ → ℕ × ℕ
entry_at m i = elim (get_elem? m i) [ none ↦ (0, 0) | some e ↦ e ]

abbrev pub rank_or_zero : Option ℕ → ℕ
rank_or_zero none = 0
rank_or_zero (some r) = r

-- `[...].sort((a, b) => b - a)` on the two pairs.
abbrev pub max_of : ℕ → ℕ → ℕ
max_of a b = if leb b a then a else b

abbrev pub min_of : ℕ → ℕ → ℕ
min_of a b = if leb b a then b else a

abbrev pub is_some : Option ℕ → Bool
is_some none = false
is_some (some _) = true

-- The classification of `evaluate5`, from `ranks`, `isFlush`, `straightHigh`, `counts[0]` and
-- `counts[1]`.
pub classify : List ℕ → Bool → Option ℕ → ℕ × ℕ → ℕ × ℕ → HandValue
classify ranks is_flush straight_high (r0, n0) (r1, n1) =
    if is_some straight_high && is_flush
    then record { rank = straight_flush; kickers = rank_or_zero straight_high ∷ [] }
    else if n0 == 4
    then record {
      rank = four_of_a_kind;
      kickers = r0 ∷ rank_or_zero (find (λ r. not (r == r0)) ranks) ∷ [];
    }
    else if n0 == 3 && n1 == 2
    then record { rank = full_house; kickers = r0 ∷ r1 ∷ [] }
    else if is_flush
    then record { rank = flush; kickers = ranks }
    else if is_some straight_high
    then record { rank = straight; kickers = rank_or_zero straight_high ∷ [] }
    else if n0 == 3
    then record {
      rank = three_of_a_kind;
      kickers = r0 ∷ take 2 (filter (λ r. not (r == r0)) ranks);
    }
    else if n0 == 2 && n1 == 2
    then record {
      rank = two_pair;
      kickers =
          max_of r0 r1
          ∷ min_of r0 r1
          ∷ rank_or_zero (find (λ r. not (r == max_of r0 r1) && not (r == min_of r0 r1)) ranks)
          ∷ [];
    }
    else if n0 == 2
    then record { rank = pair; kickers = r0 ∷ take 3 (filter (λ r. not (r == r0)) ranks) }
    else record { rank = high_card; kickers = take 5 ranks }

abbrev pub ranks_of : List ℕ → List ℕ
ranks_of cards = sort_descending (map (λ c. c / 4) cards)

abbrev pub all_same : List ℕ → Bool
all_same [] = true
all_same (s ∷ ss) = all (λ t. t == s) (s ∷ ss)

unfoldable pub evaluate5 : List ℕ → HandValue
unfolding straight_high counts_of classify
evaluate5 cards =
    let ranks = ranks_of cards in
    let counts = counts_of ranks in
    classify ranks (all_same (map (λ c. c % 4) cards)) (straight_high ranks) (entry_at counts 0)
      (entry_at counts 1)

-- The five nested loops of `evaluateHand`: all choices of `n` cards, in the order of their indices.
pub choose : ℕ → List ℕ → List (List ℕ)
choose zero cards = [] ∷ []
choose (suc n) [] = []
choose (suc n) (c ∷ cards) = map (λ hand. c ∷ hand) (choose n cards) ++ choose (suc n) cards

-- The body of the innermost loop, over the hands in that order.
pub best_of : ℕ → List (List ℕ) → ℕ
unfolding evaluate5 score
best_of best [] = best
best_of best (five ∷ hands) =
    let val = score (evaluate5 five) in best_of (if ltb best val then val else best) hands

-- `none` is the error thrown for fewer than five cards.
unfoldable pub evaluate_hand : List ℕ → Option ℕ
unfolding choose best_of
evaluate_hand cards = if ltb (length cards) 5 then none else some (best_of 0 (choose 5 cards))
