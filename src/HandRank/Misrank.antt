-- ===== src/HandRank/Misrank.antt =====
-- Proofs about `score` across the categories, whose kickers differ in number.
use pokerhub.HandRank.Score.{top_score, score_from-le}
use pokerhub.Prelude.Sort.{length-sort_by}
use pokerhub.Prelude.{
  Option, length, ◌==◌, ◌≤◌, [], ap, Bool, arith, ◌/◌, leb, map, List, ◌%◌, ◌<◌, refl, ◌≡◌, find,
  inr, if◌then◌else◌, inl, ◌∙◌, ◌*◌, ◌⊎◌, suc, ◌∷◌, take, filter, ℕ, not, ◌≢◌, false, true, sym,
}
use pokerhub.HandRank.{
  ranks_of, high_card, rank_or_zero, straight, pair, straight_flush, evaluate5, flush, all_same,
  score, HandValue, rank_number, four_of_a_kind, classify, full_house, score_from, counts_of,
  three_of_a_kind, straight_high, two_pair, max_of, HandRank, entry_at, min_of,
}
use pokerhub.HandRank.Shape.{
  ranks_of-All, straight_high-OptionAll, rank_or_zero-IsRank, IsRank, length-take_bound,
  IsRankEntry, counts_of-All, entry_at-IsRank,
}
use pokerhub.Prelude.All.{find-OptionAll, All-take, All-filter, OptionAll, All}

-- The best that any category but flush and high card can score.
abbrev pub weak_bound : ℕ
weak_bound = 94017

-- Unless it is a flush or a high card with the five ranks as kickers, a value scores at most that.
abbrev pub Weak : List ℕ → HandValue → Type 0
Weak ranks v =
    (v.rank ≡ flush)
    ⊎ ((v.rank ≡ high_card) × (v.kickers ≡ take 5 ranks))
    ⊎ ((v.rank ≢ high_card) × (score v ≤ weak_bound))

Weak-if :
    (ranks : List ℕ) (t : Bool) (v w : HandValue)
    → Weak ranks v
    → Weak ranks w
    → Weak ranks (if t then v else w)
Weak-if ranks true v w hv hw = hv
Weak-if ranks false v w hv hw = hw

abbrev IsFew : HandRank → ℕ → Type 0
IsFew r n = top_score (rank_number r) n ≤ weak_bound

few_lem :
    (ranks : List ℕ) (r : HandRank) (n : ℕ) (ks : List ℕ)
    → r ≢ high_card
    → IsFew r n
    → length ks ≤ n
    → All IsRank ks
    → Weak ranks (record { rank = r; kickers = ks })
unfolding score
few_lem ranks r n ks other few len h =
    inr (inr (other, omega (arith, score_from-le (rank_number r) n ks len h, few)))

max_of-IsRank : (a b : ℕ) → IsRank a → IsRank b → IsRank (max_of a b)
max_of-IsRank a b ha hb = ground arith

min_of-IsRank : (a b : ℕ) → IsRank a → IsRank b → IsRank (min_of a b)
min_of-IsRank a b ha hb = ground arith

module _ (ranks : List ℕ) (h : All IsRank ranks) where
  others : (p : ℕ → Bool) (r n : ℕ) → IsRank r → All IsRank (r ∷ take n (filter p ranks))
  others p r n hr = (hr, All-take IsRank n (filter p ranks) (All-filter IsRank p ranks h))

  kicker : (p : ℕ → Bool) → IsRank (rank_or_zero (find p ranks))
  kicker p = rank_or_zero-IsRank (find p ranks) (find-OptionAll IsRank p ranks h)

  classify-Weak :
      (is_flush : Bool) (o : Option ℕ) (r0 n0 r1 n1 : ℕ)
      → OptionAll IsRank o
      → IsRank r0
      → IsRank r1
      → Weak ranks (classify ranks is_flush o (r0, n0) (r1, n1))
  unfolding classify top_score rank_number
  classify-Weak is_flush o r0 n0 r1 n1 ho h0 h1 =
      Weak-if ranks _ _ _
        (few_lem ranks straight_flush 1 _ (λ e. cc) (omega arith) (omega arith) (high, tt))
        (Weak-if ranks _ _ _
          (few_lem ranks four_of_a_kind 2 _ (λ e. cc) (omega arith) (omega arith)
            (h0, (kicker _, tt)))
          (Weak-if ranks _ _ _
            (few_lem ranks full_house 2 _ (λ e. cc) (omega arith) (omega arith) (h0, (h1, tt)))
            (Weak-if ranks _ _ _ (inl refl) (
              Weak-if ranks _ _ _
                (few_lem ranks straight 1 _ (λ e. cc) (omega arith) (omega arith) (high, tt))
                (Weak-if ranks _ _ _
                  (few_lem ranks three_of_a_kind 3 _ (λ e. cc) (omega arith)
                    (omega (arith, length-take_bound 2 (filter (λ r. not (r == r0)) ranks)))
                    (others _ r0 2 h0))
                  (Weak-if ranks _ _ _
                    (few_lem ranks two_pair 3 _ (λ e. cc) (omega arith) (omega arith)
                      (max_of-IsRank r0 r1 h0 h1, (min_of-IsRank r0 r1 h0 h1, (kicker _, tt))))
                    (Weak-if ranks _ _ _
                      (few_lem ranks pair 4 _ (λ e. cc) (omega arith)
                        (omega (arith, length-take_bound 3 (filter (λ r. not (r == r0)) ranks)))
                        (others _ r0 3 h0))
                      (inr (inl (refl, refl))))))))))
    where
      high : IsRank (rank_or_zero o)
      high = rank_or_zero-IsRank o ho

evaluate5-Weak :
    (cards : List ℕ) → All (λ c. c < 52) cards → Weak (ranks_of cards) (evaluate5 cards)
unfolding evaluate5
evaluate5-Weak cards h =
    let ranks = ranks_of cards in
    let hr : All IsRank ranks = ranks_of-All cards h in
    let m = counts_of ranks in
    let hm : All IsRankEntry m = counts_of-All ranks hr in
    classify-Weak ranks hr (all_same (map (λ c. c % 4) cards)) (straight_high ranks)
      (entry_at m 0).0 (entry_at m 0).1 (entry_at m 1).0 (entry_at m 1).1
      (straight_high-OptionAll ranks hr) (entry_at-IsRank m 0 hm) (entry_at-IsRank m 1 hm)

five_kickers :
    (ranks : List ℕ) (a : ℕ) (tail : List ℕ)
    → ranks ≡ a ∷ tail
    → length ranks ≡ 5
    → 50625 * a ≤ score_from 0 (take 5 ranks)
unfolding score_from
five_kickers [] a tail e len = absurd (omega arith)
five_kickers (b ∷ []) a tail e len = absurd (omega arith)
five_kickers (b ∷ c ∷ []) a tail e len = absurd (omega arith)
five_kickers (b ∷ c ∷ d ∷ []) a tail e len = absurd (omega arith)
five_kickers (b ∷ c ∷ d ∷ f ∷ []) a tail e len = absurd (omega arith)
five_kickers (b ∷ c ∷ d ∷ f ∷ g ∷ ks) a tail e len =
    let same : b ≡ a = ground arith in omega (arith, same)

length-ranks_of : (cards : List ℕ) → length (ranks_of cards) ≡ length cards
length-ranks_of cards = length-sort_by (λ a b. leb b a) (map (λ c. c / 4) cards) ∙ go cards
  where
    go : (xs : List ℕ) → length (map (λ c. c / 4) xs) ≡ length xs
    go [] = refl
    go (x ∷ xs) = ap suc (go xs)

flush≢high_card : ¬ (flush ≡ high_card)
flush≢high_card e = cc

score-high_card :
    (v : HandValue) {ks : List ℕ} → v.rank ≡ high_card → v.kickers ≡ ks → score v ≡ score_from 0 ks
unfolding score rank_number
score-high_card v e k = rw (e, k) refl

-- A high card of five cards whose highest rank is 2 or more scores above every hand, of cards below 52,
-- that `evaluate5` puts into another category than flush and high card: pairs, straights, full
-- houses, four of a kind and straight flushes among them.
pub high_card_beats_rest :
    (strong weak : List ℕ) (top : ℕ) (rest : List ℕ)
    → All (λ c. c < 52) strong
    → (evaluate5 strong).rank ≢ flush
    → (evaluate5 strong).rank ≢ high_card
    → All (λ c. c < 52) weak
    → length weak ≡ 5
    → (evaluate5 weak).rank ≡ high_card
    → ranks_of weak ≡ top ∷ rest
    → 2 ≤ top
    → score (evaluate5 strong) < score (evaluate5 weak)
high_card_beats_rest strong weak top rest hs not_flush not_high hw len is_high e big =
    elim (evaluate5-Weak strong hs) [
      | inl f ↦ absurd (not_flush f)
      | inr (inl (f, _)) ↦ absurd (not_high f)
      | inr (inr few) ↦ weak_case few.1 (evaluate5-Weak weak hw)
    ]
  where
    weak_case :
        score (evaluate5 strong) ≤ weak_bound
        → Weak (ranks_of weak) (evaluate5 weak)
        → score (evaluate5 strong) < score (evaluate5 weak)
    weak_case few (inl f) = absurd (flush≢high_card (sym f ∙ is_high))
    weak_case few (inr (inr (other, _))) = absurd (other is_high)
    weak_case few (inr (inl (_, k))) =
        let bound : 50625 * top ≤ score_from 0 (take 5 (ranks_of weak)) =
          five_kickers (ranks_of weak) top rest e (length-ranks_of weak ∙ len) in
        omega (arith, few, bound, score-high_card (evaluate5 weak) is_high k)
