-- ===== src/Deck/Build.antt =====
-- Proofs about the cards of `buildDeck`, whatever the shuffle returns.
use pokerhub.Prelude.{
  ℕ, zero, suc, ◌+◌, ◌≤◌, ◌<◌, ◌≡◌, refl, not, ◌&&◌, ◌||◌, Option, none, some, List, [], ◌∷◌, ◌++◌,
  arith, ltb, leb, ◌==◌, if◌then◌else◌, length, includes, Bool-cases, inl, inr, eq_of_==, ◌⊎◌,
}
use pokerhub.Prelude.Count.{
  one_if, count, IsDistinct, count-append, includes-count, not_includes-count, count-filter,
  SameCounts-of_length,
}
use pokerhub.Deck.{
  numbers_from, keep_card, add_missing, standard_deck, keep_fresh, fill_up, available, build_deck,
}

-- What the deck relies on: a shuffle brings in no card that was not there.
abbrev pub HasNumber : ℕ → List (Option ℕ) → Type 0
HasNumber c [] = ⊥
HasNumber c (none ∷ rest) = HasNumber c rest
HasNumber c (some x ∷ rest) = (x ≡ c) ⊎ HasNumber c rest

abbrev pub AddsNothing : (List ℕ → List (Option ℕ)) → Type 0
AddsNothing shuffled = (items : List ℕ) (c : ℕ) → HasNumber c (shuffled items) → 0 < count c items

count-numbers_from : (c n k : ℕ) → count c (numbers_from n k) ≡ one_if (leb n c && ltb c (n + k))
unfolding numbers_from
count-numbers_from c n zero = ground arith
count-numbers_from c n (suc k) = ground (arith, count-numbers_from c (n + 1) k)

pub count-standard_deck : (c : ℕ) → count c standard_deck ≡ one_if (ltb c 52)
unfolding standard_deck
count-standard_deck c = ground (arith, count-numbers_from c 0 52)

pub count-available :
    (excluded : List ℕ) (c : ℕ)
    → count c (available excluded) ≡ (if includes c excluded then 0 else one_if (ltb c 52))
unfolding available
count-available excluded c = elim (Bool-cases (includes c excluded)) [
  | inl gone ↦ rw (count-filter (λ card. not (includes card excluded)) c standard_deck) (rw gone)
  | inr kept ↦
      rw (count-filter (λ card. not (includes card excluded)) c standard_deck)
        (rw kept (count-standard_deck c))
]

available-IsDistinct : (excluded : List ℕ) → IsDistinct (available excluded)
available-IsDistinct excluded c = ground (arith, count-available excluded c)

keep_card-le :
    (excluded bound deck : List ℕ) (x : ℕ)
    → 0 < count x bound
    → ((c : ℕ) → count c deck ≤ count c bound)
    → (c : ℕ) → count c (keep_card excluded deck x) ≤ count c bound
unfolding keep_card
keep_card-le excluded bound deck x inside below c = elim (Bool-cases (includes x deck)) [
  | inl old ↦ ground (arith, below c)
  | inr new ↦
      let absent : count x deck ≡ 0 = not_includes-count x deck new in
      let grown : count c (deck ++ x ∷ []) ≤ count c bound =
        ground (arith, below c, count-append c deck (x ∷ [])) in
      ground (arith, below c, grown)
]

-- The first loop keeps within a bound on its cards.
keep_fresh-le :
    (excluded bound : List ℕ) (cards : List (Option ℕ)) (deck : List ℕ)
    → ((c : ℕ) → HasNumber c cards → 0 < count c bound)
    → ((c : ℕ) → count c deck ≤ count c bound)
    → (c : ℕ) → count c (keep_fresh excluded deck cards) ≤ count c bound
unfolding keep_fresh
keep_fresh-le excluded bound [] deck inside below c = below c
keep_fresh-le excluded bound (none ∷ rest) deck inside below c =
    keep_fresh-le excluded bound rest deck inside below c
keep_fresh-le excluded bound (some x ∷ rest) deck inside below c =
    keep_fresh-le excluded bound rest (keep_card excluded deck x) (λ d h. inside d (inr h))
      (keep_card-le excluded bound deck x (inside x (inl refl)) below) c

includes-append :
    (c : ℕ) (xs ys : List ℕ) → includes c (xs ++ ys) ≡ (includes c xs || includes c ys)
includes-append c [] ys = refl
includes-append c (x ∷ xs) ys = ground (arith, includes-append c xs ys)

includes-add_missing :
    (deck : List ℕ) (x c : ℕ) → includes c (add_missing deck x) ≡ (includes c deck || x == c)
unfolding add_missing
includes-add_missing deck x c = elim (Bool-cases (x == c)) [
  | inl same ↦ rw (eq_of_== x c same) (ground (arith, includes-append c deck (c ∷ [])))
  | inr other ↦ ground (arith, includes-append c deck (x ∷ []))
]

count-add_missing :
    (deck : List ℕ) (x c : ℕ)
    → count c (add_missing deck x) ≡ (if includes c deck then count c deck else one_if (x == c))
unfolding add_missing
count-add_missing deck x c = elim (Bool-cases (x == c)) [
  | inl same ↦
      rw (eq_of_== x c same)
        (ground (arith, count-append c deck (c ∷ []), not_includes-count c deck))
  | inr other ↦ ground (arith, count-append c deck (x ∷ []), not_includes-count c deck)
]

one_if-includes :
    (c : ℕ) (cards : List ℕ) → count c cards ≤ 1 → one_if (includes c cards) ≡ count c cards
one_if-includes c cards distinct = elim (Bool-cases (includes c cards)) [
  | inl found ↦ rw found (omega (arith, includes-count c cards found))
  | inr absent ↦ rw absent (omega (arith, not_includes-count c cards absent))
]

-- The second loop adds each missing card once and leaves the others alone.
fill_up-count :
    (deck cards : List ℕ) (c : ℕ)
    → count c (fill_up deck cards)
      ≡ (if includes c deck then count c deck else one_if (includes c cards))
unfolding fill_up
fill_up-count deck [] c = ground (arith, not_includes-count c deck)
fill_up-count deck (x ∷ rest) c = ground (
  arith,
  fill_up-count (add_missing deck x) rest c,
  includes-add_missing deck x c,
  count-add_missing deck x c,
)

fill_up-SameCounts :
    (deck cards : List ℕ) (c : ℕ)
    → count c deck ≤ count c cards
    → count c cards ≤ 1
    → count c (fill_up deck cards) ≡ count c cards
fill_up-SameCounts deck cards c below distinct = elim (Bool-cases (includes c deck)) [
  | inl old ↦ rw (fill_up-count deck cards c) (rw old (omega (arith, includes-count c deck old)))
  | inr new ↦ rw (fill_up-count deck cards c) (rw new (one_if-includes c cards distinct))
]

-- The deck that `buildDeck` makes holds every card that is not excluded, and each of them once,
-- whatever order the shuffle returns and however many slots it leaves undefined, as long as the
-- shuffle brings in no card that it was not given.
pub count-build_deck :
    (shuffled : List ℕ → List (Option ℕ))
    → AddsNothing shuffled
    → (excluded : List ℕ) (c : ℕ)
    → count c (build_deck shuffled excluded)
      ≡ (if includes c excluded then 0 else one_if (ltb c 52))
unfolding build_deck
count-build_deck shuffled adds excluded c =
    rw (← count-available excluded c) (elim (Bool-cases (ltb (length deck) (length cards))) [
      | inl short ↦
          rw short (fill_up-SameCounts deck cards c (below c) (available-IsDistinct excluded c))
      | inr full ↦ rw full (SameCounts-of_length deck cards below (ground arith) c)
    ])
  where
    cards : List ℕ
    cards = available excluded

    deck : List ℕ
    deck = keep_fresh excluded [] (shuffled cards)

    below : (d : ℕ) → count d deck ≤ count d cards
    below = keep_fresh-le excluded cards (shuffled cards) [] (adds cards) (λ d. omega arith)
