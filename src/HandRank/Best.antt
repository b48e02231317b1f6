-- ===== src/HandRank/Best.antt =====
-- Proofs about `evaluateHand` and the choices of five cards.
use pokerhub.Prelude.{
  some, ltb, zero, le→ltb, ◌∷◌, arith, length, ℕ, map, refl, Bool-cases, take, ◌≡◌, List, ap, inr,
  inl, ◌≤◌, ◌⊎◌, [], if◌then◌else◌, suc, ◌++◌, sym, eq_of_some,
}
use pokerhub.HandRank.{best_of, score, evaluate_hand, choose, evaluate5}
use pokerhub.Prelude.All.{All-append, All}

module _ (five : List ℕ) where
  abbrev Among : List (List ℕ) → Type 0
  Among [] = ⊥
  Among (h ∷ hs) = (h ≡ five) ⊎ Among hs

  Among-right : (xs ys : List (List ℕ)) → Among ys → Among (xs ++ ys)
  Among-right [] ys m = m
  Among-right (x ∷ xs) ys m = inr (Among-right xs ys m)

  Among-left : (xs ys : List (List ℕ)) → Among xs → Among (xs ++ ys)
  Among-left [] ys m = absurd m
  Among-left (x ∷ xs) ys (inl e) = inl e
  Among-left (x ∷ xs) ys (inr m) = inr (Among-left xs ys m)

  Among-append : (xs ys : List (List ℕ)) → Among (xs ++ ys) → Among xs ⊎ Among ys
  Among-append [] ys m = inr m
  Among-append (x ∷ xs) ys (inl e) = inl (inl e)
  Among-append (x ∷ xs) ys (inr m) = elim (Among-append xs ys m) [
    | inl l ↦ inl (inr l)
    | inr r ↦ inr r
  ]

Among-map :
    (c : ℕ) (hand : List ℕ) (hs : List (List ℕ))
    → Among hand hs
    → Among (c ∷ hand) (map (λ h. c ∷ h) hs)
Among-map c hand [] m = absurd m
Among-map c hand (h ∷ hs) (inl e) = inl (ap (◌∷◌ c) e)
Among-map c hand (h ∷ hs) (inr m) = inr (Among-map c hand hs m)

-- A choice of cards in their order.
pub data Picks : List ℕ → List ℕ → Type 0 where
  done : Picks [] []
  keep : {c : ℕ} {hand cards : List ℕ} → Picks hand cards → Picks (c ∷ hand) (c ∷ cards)
  skip : {c : ℕ} {hand cards : List ℕ} → Picks hand cards → Picks hand (c ∷ cards)

nil_of_length : (hand : List ℕ) → length hand ≡ 0 → [] ≡ hand
nil_of_length [] e = refl
nil_of_length (c ∷ hand) e = absurd (omega arith)

-- The nested loops meet every choice of `n` cards.
choose_complete :
    {hand cards : List ℕ} (n : ℕ) → Picks hand cards → length hand ≡ n → Among hand (choose n cards)
unfolding choose
choose_complete zero done e = inl refl
choose_complete (suc n) done e = absurd (omega arith)
choose_complete zero (keep p) e = absurd (omega arith)
choose_complete (suc n) (keep {c} {hand} {cards} p) e =
    Among-left (c ∷ hand) _ _
      (Among-map c hand (choose n cards) (choose_complete n p (omega arith)))
choose_complete zero (skip {hand = hand} p) e = inl (nil_of_length hand e)
choose_complete (suc n) (skip {hand = hand} p) e =
    Among-right hand _ _ (choose_complete (suc n) p e)

-- They meet nothing else.
abbrev IsChoice : ℕ → List ℕ → List ℕ → Type 0
IsChoice n cards hand = Picks hand cards × (length hand ≡ n)

map-IsChoice :
    (n c : ℕ) (cards : List ℕ) (hands : List (List ℕ))
    → All (IsChoice n cards) hands
    → All (IsChoice (suc n) (c ∷ cards)) (map (λ hand. c ∷ hand) hands)
map-IsChoice n c cards [] h = tt
map-IsChoice n c cards (hand ∷ hands) h =
    ((keep h.0.0, ap suc h.0.1), map-IsChoice n c cards hands h.1)

skip-IsChoice :
    (n c : ℕ) (cards : List ℕ) (hands : List (List ℕ))
    → All (IsChoice n cards) hands
    → All (IsChoice n (c ∷ cards)) hands
skip-IsChoice n c cards [] h = tt
skip-IsChoice n c cards (hand ∷ hands) h = ((skip h.0.0, h.0.1), skip-IsChoice n c cards hands h.1)

Picks-nil : (cards : List ℕ) → Picks [] cards
Picks-nil [] = done
Picks-nil (c ∷ cards) = skip (Picks-nil cards)

choose-IsChoice : (n : ℕ) (cards : List ℕ) → All (IsChoice n cards) (choose n cards)
unfolding choose
choose-IsChoice zero cards = ((Picks-nil cards, refl), tt)
choose-IsChoice (suc n) [] = tt
choose-IsChoice (suc n) (c ∷ cards) =
    All-append (IsChoice (suc n) (c ∷ cards)) (map (λ hand. c ∷ hand) (choose n cards))
      (choose (suc n) cards) (map-IsChoice n c cards (choose n cards) (choose-IsChoice n cards))
      (skip-IsChoice (suc n) c cards (choose (suc n) cards) (choose-IsChoice (suc n) cards))

abbrev hand_score : List ℕ → ℕ
hand_score five = score (evaluate5 five)

abbrev raise : ℕ → List ℕ → ℕ
raise best h = if ltb best (hand_score h) then hand_score h else best

best_of-le : (best : ℕ) (hands : List (List ℕ)) → best ≤ best_of best hands
unfolding best_of
best_of-le best [] = omega arith
best_of-le best (h ∷ hands) = ground (arith, best_of-le (raise best h) hands)

best_of_max :
    (best : ℕ) (hands : List (List ℕ)) (five : List ℕ)
    → Among five hands
    → hand_score five ≤ best_of best hands
unfolding best_of
best_of_max best [] five m = absurd m
best_of_max best (h ∷ hands) five (inl e) =
    ground (arith, best_of-le (raise best h) hands, ap hand_score e)
best_of_max best (h ∷ hands) five (inr m) = best_of_max (raise best h) hands five m

-- The result is the value at the start, or the score of one of the hands.
best_of_attained :
    (P : List ℕ → Type 0) (best : ℕ) (hands : List (List ℕ))
    → All P hands
    → (best_of best hands ≡ best)
      ⊎ ((five : List ℕ) × P five × (hand_score five ≡ best_of best hands))
unfolding best_of
best_of_attained P best [] h = inl refl
best_of_attained P best (five ∷ hands) h = elim (best_of_attained P (raise best five) hands h.1) [
  | inl e ↦ elim (Bool-cases (ltb best (hand_score five))) [
    | inl more ↦ inr (five, h.0, ground arith)
    | inr less ↦ inl (ground arith)
  ]
  | inr other ↦ inr other
]

Picks-take : (n : ℕ) (cards : List ℕ) → Picks (take n cards) cards
Picks-take zero cards = Picks-nil cards
Picks-take (suc n) [] = done
Picks-take (suc n) (c ∷ cards) = keep (Picks-take n cards)

length-take_le : (n : ℕ) (cards : List ℕ) → n ≤ length cards → length (take n cards) ≡ n
length-take_le zero cards h = refl
length-take_le (suc n) [] h = absurd (omega arith)
length-take_le (suc n) (c ∷ cards) h = ap suc (length-take_le n cards (omega arith))

-- No choice of five of the cards scores higher under `evaluate5` than what `evaluateHand` returns.
pub evaluate_hand_max :
    (cards : List ℕ) (best : ℕ) (five : List ℕ)
    → evaluate_hand cards ≡ some best
    → Picks five cards
    → length five ≡ 5
    → score (evaluate5 five) ≤ best
unfolding evaluate_hand
evaluate_hand_max cards best five e p len =
    let upper : hand_score five ≤ best_of 0 (choose 5 cards) =
      best_of_max 0 (choose 5 cards) five (choose_complete 5 p len) in
    elim (Bool-cases (ltb (length cards) 5)) [
      | inl few ↦ absurd (cc (rw few at e))
      | inr enough ↦
          let same : some (best_of 0 (choose 5 cards)) ≡ some best = rw enough at e in
          omega (arith, upper, eq_of_some same)
    ]

-- With five cards or more `evaluateHand` returns, and what it returns is the score that `evaluate5`
-- gives to one of the choices of five of the cards.
pub evaluate_hand_attained :
    (cards : List ℕ)
    → 5 ≤ length cards
    → (five : List ℕ) × Picks five cards
      × (length five ≡ 5)
      × (evaluate_hand cards ≡ some (score (evaluate5 five)))
unfolding evaluate_hand
evaluate_hand_attained cards h =
    let hands = choose 5 cards in
    let first = take 5 cards in
    let len = length-take_le 5 cards h in
    let returns : (n : ℕ) → n ≡ best_of 0 hands → evaluate_hand cards ≡ some n =
      λ n e. rw (le→ltb (length cards) 5 h) (ap some (sym e)) in
    elim (best_of_attained (IsChoice 5 cards) 0 hands (choose-IsChoice 5 cards)) [
      | inl zero_best ↦ (
        first,
        Picks-take 5 cards,
        len,
        returns (hand_score first) (
            omega (
              arith,
              zero_best,
              best_of_max 0 hands first (choose_complete 5 (Picks-take 5 cards) len),
            )),
      )
      | inr (five, choice, e) ↦ (five, choice.0, choice.1, returns (hand_score five) e)
    ]
