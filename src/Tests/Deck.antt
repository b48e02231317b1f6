-- ===== src/Tests/Deck.antt =====
-- The deck at concrete digests.
use pokerhub.Prelude.{
  ltb, some, refl, includes, none, ◌∷◌, ℕ, ◌≡◌, arith, [], get_elem?, if◌then◌else◌,
}
use pokerhub.Prelude.Count.{one_if, count}
use pokerhub.Deck.Shuffle.{count_slots, count-shuffle, shuffle-AddsNothing}
use pokerhub.Deck.{build_deck, numbers_from, shuffle, Digest}
use pokerhub.Deck.Undefined.{shuffle_undefined}
use pokerhub.Deck.Build.{count-build_deck}

-- Every word is 0: each card goes to the front in turn.
abbrev zero_hash : ℕ → Digest
zero_hash n = record { b0 = 0; b1 = 0; b2 = 0; b3 = 0 }

-- Every word is negative.
abbrev high_hash : ℕ → Digest
high_hash n = record { b0 = 192; b1 = 0; b2 = 0; b3 = 0 }

shuffle_low : shuffle zero_hash (0 ∷ 1 ∷ 2 ∷ []) ≡ some 1 ∷ some 2 ∷ some 0 ∷ []
unfolding shuffle
shuffle_low = refl

shuffle_high : shuffle high_hash (0 ∷ 1 ∷ 2 ∷ []) ≡ some 0 ∷ some 2 ∷ none ∷ []
unfolding shuffle
shuffle_high = refl

build_deck_repairs : build_deck (shuffle high_hash) (numbers_from 4 48) ≡ 0 ∷ 2 ∷ 1 ∷ 3 ∷ []
unfolding build_deck shuffle
build_deck_repairs = refl

count-build_deck_example :
    count 3 (build_deck (shuffle high_hash) (7 ∷ 9 ∷ []))
    ≡ (if includes 3 (7 ∷ 9 ∷ []) then 0 else one_if (ltb 3 52))
count-build_deck_example =
    count-build_deck (shuffle high_hash) (shuffle-AddsNothing high_hash) (7 ∷ 9 ∷ []) 3

count-shuffle_example :
    count_slots 5 (shuffle zero_hash (4 ∷ 5 ∷ 5 ∷ 6 ∷ [])) ≡ count 5 (4 ∷ 5 ∷ 5 ∷ 6 ∷ [])
count-shuffle_example =
    count-shuffle zero_hash (4 ∷ 5 ∷ 5 ∷ 6 ∷ []) (λ n. (omega arith, omega arith)) 5

shuffle_undefined_example : get_elem? (shuffle high_hash (10 ∷ 11 ∷ 12 ∷ [])) 2 ≡ some none
shuffle_undefined_example =
    shuffle_undefined high_hash 10 11 (12 ∷ []) (λ n. omega arith) (omega arith)
