-- ===== src/Tournament/Prizes.antt =====
-- Prizes: `calculatePrizes` and `PkoService` of `pko.service.ts`, `RebuyService`, `resolveBubbleElimination` of
-- `tournament.service.ts`, and the rounding of `calculateIcmPayouts` in `shared/utils/icm.ts`. Percentages are
-- floating-point numbers, so that `Math.floor(pool * p)` is the parameter `share`; the expectations of the
-- independent chip model are given as their whole parts and fractions. A percentage or a seat cost of 0 counts
-- as absent.
use pokerhub.Prelude.{
  leb, length, List, ◌+◌, ◌-◌, ◌%◌, zero, ltb, Bool, take, ◌*◌, Option, if◌then◌else◌, none, suc,
  sum_by, ◌/◌, map, ℕ, [], ◌∷◌, some,
}
use pokerhub.Prelude.Int.{◌-ℤ◌, pos_part, pos, ℤ, ltb_ℤ}
use pokerhub.Prelude.Sort.{sort_by}

-- `prizes[i % prizes.length] += 1`, of a list that is not empty.
unfoldable pub add_one : ℕ → List ℕ → List ℕ
add_one i [] = []
add_one zero (x ∷ xs) = (x + 1) ∷ xs
add_one (suc i) (x ∷ xs) = x ∷ add_one i xs

-- `while (remainder > 0) { ... }` with `remainder` rounds left.
unfoldable pub spread : ℕ → ℕ → List ℕ → List ℕ
unfolding add_one
spread zero i prizes = prizes
spread (suc n) i prizes = spread n (i + 1) (add_one (i % length prizes) prizes)

-- The answer of `calculatePrizes`, with the remainder that is left after the loop.
pub record PrizeTable : Type 0 where
  pub prizes : List ℕ
  pub bounty_pool : Option ℕ
  pub seats : Option ℕ
  pub remainder : ℤ

-- `share pool p` stands for `Math.floor(pool * p)`. `icm` holds the payouts of the independent chip model if
-- that is the method and stacks are given.
module _ {Percent : Type 0} (share : ℕ → Percent → ℕ) where
  -- The pool that is left for prizes, the bounty pool and the seats. The bounty's share is taken to be above
  -- 0 and no more than the whole pool; with more, the source goes on with a negative pool, and this with 0.
  unfoldable pub split_pool : ℕ → Option Percent → Option ℕ → ℕ × Option ℕ × Option ℕ
  split_pool pool bounty seat_cost =
      let bounties : Option ℕ = elim bounty [ none ↦ none | some p ↦ some (share pool p) ] in
      let left : ℕ = elim bounties [ none ↦ pool | some b ↦ pool - b ] in
      elim seat_cost [
        | none ↦ (left, bounties, none)
        | some cost ↦ (left - left / cost * cost, bounties, some (left / cost))
      ]

  -- `calculatePrizes(prizePool, payouts, opts)`
  unfoldable pub calculate_prizes :
      ℕ → List Percent → Option Percent → Option ℕ → Option (List ℕ) → PrizeTable
  unfolding split_pool spread
  calculate_prizes pool payouts bounty seat_cost icm =
      let (left, bounties, seats) = split_pool pool bounty seat_cost in
      let prizes : List ℕ = elim icm [ none ↦ map (share left) payouts | some paid ↦ paid ] in
      let remainder = pos left -ℤ pos (sum_by (λ x. x) prizes) in
      record {
        prizes = spread (pos_part remainder) 0 prizes;
        bounty_pool = bounties;
        seats = seats;
        remainder = if ltb_ℤ (pos 0) remainder then pos 0 else remainder;
      }

-- `settleBounty(currentBounty)`: the award, and what is added to the winner's bounty.
abbrev pub settle_bounty : ℕ → ℕ × ℕ
settle_bounty bounty = (bounty / 2, bounty - bounty / 2)

-- `canRebuy(stack, threshold)`
abbrev pub can_rebuy : ℕ → ℕ → Bool
can_rebuy stack threshold = leb stack threshold

pub record Bust : Type 0 where
  pub id : ℕ
  pub stack : ℕ

-- The prizes of the players in order, from the `i`th on.
unfoldable pub bubble_prizes : ℕ → ℕ → ℕ → List Bust → List (ℕ × ℕ)
bubble_prizes base remainder i [] = []
bubble_prizes base remainder i (p ∷ ps) =
    (p.id, base + (if ltb i remainder then 1 else 0)) ∷ bubble_prizes base remainder (i + 1) ps

-- `resolveBubbleElimination(busts, prizes)`
unfoldable pub resolve_bubble : List Bust → List ℕ → List (ℕ × ℕ)
unfolding sort_by bubble_prizes
resolve_bubble busts prizes =
    let sorted = sort_by (λ a b. leb b.stack a.stack) busts in
    let pot = sum_by (λ x. x) (take (length sorted) prizes) in
    let base = pot / length sorted in bubble_prizes base (pot - base * length sorted) 0 sorted

-- An entry of `fractions`: the index, and the fraction as a number that can be compared.
abbrev pub Fraction : Type 0
Fraction = ℕ × ℕ

abbrev pub with_index : ℕ → List ℕ → List Fraction
with_index i [] = []
with_index i (f ∷ fs) = (i, f) ∷ with_index (i + 1) fs

-- The last loop of `calculateIcmPayouts`; `none` is the error of an index past the end.
unfoldable pub round_up : ℕ → List Fraction → List ℕ → Option (List ℕ)
unfolding add_one
round_up zero order floored = some floored
round_up (suc n) [] floored = none
round_up (suc n) (e ∷ order) floored = round_up n order (add_one e.0 floored)

-- `calculateIcmPayouts(stacks, prizes)` from the whole parts and the fractions of the expectations, and the
-- sum of the prizes.
unfoldable pub round_payouts : List ℕ → List ℕ → ℕ → Option (List ℕ)
unfolding sort_by round_up
round_payouts floored fractions total =
    round_up (total - sum_by (λ x. x) floored)
      (sort_by (λ (a b : Fraction). leb b.1 a.1) (with_index 0 fractions)) floored
