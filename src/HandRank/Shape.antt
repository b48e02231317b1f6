-- ===== src/HandRank/Shape.antt =====
-- The kickers that `evaluate5` returns: ranks of the cards, five of them only in the two categories
-- without a repeated rank or a straight.
use pokerhub.Prelude.{
  [], get_elem?, ℕ, Bool, leb, arith, zero, ◌+◌, take, suc, none, ◌==◌, inr, length, ◌≤◌,
  if◌then◌else◌, Bool-cases, Option, true, ◌∷◌, false, ◌<◌, List, some, inl, ◌/◌, map,
}
use pokerhub.HandRank.{
  add_count, wheel, counts_of, entry_at, rank_or_zero, count_before, straight_window, straight_high,
  ranks_of, count_ranks,
}
use pokerhub.Prelude.All.{get_elem?-OptionAll, All-sort_by, All, All-dedup, OptionAll}
use pokerhub.Prelude.Sort.{dedup, sort_ascending}

abbrev pub IsRank : ℕ → Type 0
IsRank r = r ≤ 12

abbrev pub IsRankEntry : ℕ × ℕ → Type 0
IsRankEntry e = IsRank e.0

add_count-All :
    (r : ℕ) (m : List (ℕ × ℕ)) → IsRank r → All IsRankEntry m → All IsRankEntry (add_count r m)
unfolding add_count
add_count-All r [] hr h = (hr, tt)
add_count-All r ((q, n) ∷ m) hr h = elim (Bool-cases (q == r)) [
  | inl e ↦ rw e h
  | inr e ↦ rw e (h.0, add_count-All r m hr h.1)
]

count_ranks-All :
    (m : List (ℕ × ℕ)) (rs : List ℕ)
    → All IsRankEntry m
    → All IsRank rs
    → All IsRankEntry (count_ranks m rs)
unfolding count_ranks
count_ranks-All m [] h hr = h
count_ranks-All m (r ∷ rs) h hr = count_ranks-All (add_count r m) rs (add_count-All r m hr.0 h) hr.1

pub counts_of-All : (ranks : List ℕ) → All IsRank ranks → All IsRankEntry (counts_of ranks)
unfolding counts_of
counts_of-All ranks h =
    All-sort_by IsRankEntry count_before (count_ranks [] ranks) (count_ranks-All [] ranks tt h)

pub entry_at-IsRank : (m : List (ℕ × ℕ)) (i : ℕ) → All IsRankEntry m → IsRank (entry_at m i).0
entry_at-IsRank m i h = go (get_elem? m i) (get_elem?-OptionAll IsRankEntry m i h)
  where
    go :
        (o : Option (ℕ × ℕ))
        → OptionAll IsRankEntry o
        → IsRank (let e : ℕ × ℕ = elim o [ none ↦ (0, 0) | some x ↦ x ] in e.0)
    go none p = omega arith
    go (some x) p = p

pub rank_or_zero-IsRank : (o : Option ℕ) → OptionAll IsRank o → IsRank (rank_or_zero o)
rank_or_zero-IsRank none h = omega arith
rank_or_zero-IsRank (some r) h = h

straight_window-All :
    (found : Option ℕ) (ranks : List ℕ)
    → OptionAll IsRank found
    → All IsRank ranks
    → OptionAll IsRank (straight_window found ranks)
unfolding straight_window
straight_window-All found (a ∷ b ∷ c ∷ d ∷ e ∷ rest) hf h =
    straight_window-All (if e == a + 4 then some e else found) (b ∷ c ∷ d ∷ e ∷ rest)
      (pick (e == a + 4) h.1.1.1.1.0) h.1
  where
    pick : (t : Bool) → IsRank e → OptionAll IsRank (if t then some e else found)
    pick true he = he
    pick false he = hf
straight_window-All found [] hf h = hf
straight_window-All found (a ∷ []) hf h = hf
straight_window-All found (a ∷ b ∷ []) hf h = hf
straight_window-All found (a ∷ b ∷ c ∷ []) hf h = hf
straight_window-All found (a ∷ b ∷ c ∷ d ∷ []) hf h = hf

wheel-OptionAll :
    (unique : List ℕ) (o : Option ℕ) → OptionAll IsRank o → OptionAll IsRank (wheel unique o)
unfolding wheel
wheel-OptionAll unique (some high) h = h
wheel-OptionAll unique none h = pick _
  where
    pick : (t : Bool) → OptionAll IsRank (if t then some 3 else none)
    pick true = omega arith
    pick false = tt

pub straight_high-OptionAll :
    (ranks : List ℕ) → All IsRank ranks → OptionAll IsRank (straight_high ranks)
unfolding straight_high
straight_high-OptionAll ranks h =
    let unique = sort_ascending (dedup ranks) in
    wheel-OptionAll unique (straight_window none unique) (
      straight_window-All none unique tt
        (All-sort_by IsRank leb (dedup ranks) (All-dedup IsRank ranks h)))

map-IsRank : (cards : List ℕ) → All (λ c. c < 52) cards → All IsRank (map (λ c. c / 4) cards)
map-IsRank [] h = tt
map-IsRank (c ∷ cards) h = (omega (arith, h.0), map-IsRank cards h.1)

pub ranks_of-All : (cards : List ℕ) → All (λ c. c < 52) cards → All IsRank (ranks_of cards)
ranks_of-All cards h =
    All-sort_by IsRank (λ a b. leb b a) (map (λ c. c / 4) cards) (map-IsRank cards h)

pub length-take_bound {ℓ} : {A : Type ℓ} (n : ℕ) (xs : List A) → length (take n xs) ≤ n
length-take_bound zero xs = omega arith
length-take_bound (suc n) [] = omega arith
length-take_bound (suc n) (x ∷ xs) = omega (arith, length-take_bound n xs)
