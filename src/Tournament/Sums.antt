-- ===== src/Tournament/Sums.antt =====
-- Proofs about the sums of prizes.
use pokerhub.Prelude.{
  sum_by, length, [], ◌<◌, refl, suc, ◌≡◌, ℕ, ◌≤◌, List, take, ◌-◌, ap, zero, ◌*◌, arith, ◌∷◌, ◌+◌,
  min, ◌/◌, ◌∙◌, leb, some,
}
use pokerhub.Tournament.Prizes.{
  add_one, resolve_bubble, bubble_prizes, Bust, round_payouts, Fraction, round_up, with_index,
}
use pokerhub.Prelude.Sort.{length-sort_by, sort_by}
use pokerhub.Prelude.All.{All-sort_by, All}

abbrev total : List ℕ → ℕ
total = sum_by (λ x. x)

total-add_one : (i : ℕ) (xs : List ℕ) → i < length xs → total (add_one i xs) ≡ total xs + 1
unfolding add_one
total-add_one i [] h = absurd (omega arith)
total-add_one zero (x ∷ xs) h = omega arith
total-add_one (suc i) (x ∷ xs) h = omega (arith, total-add_one i xs (omega arith))

length-add_one : (i : ℕ) (xs : List ℕ) → length (add_one i xs) ≡ length xs
unfolding add_one
length-add_one i [] = refl
length-add_one zero (x ∷ xs) = refl
length-add_one (suc i) (x ∷ xs) = ap suc (length-add_one i xs)

total-bubble_prizes :
    (base remainder i : ℕ) (ps : List Bust)
    → sum_by (λ (e : ℕ × ℕ). e.1) (bubble_prizes base remainder i ps)
      ≡ base * length ps + (min (i + length ps) remainder - min i remainder)
unfolding bubble_prizes
total-bubble_prizes base remainder i [] = ground arith
total-bubble_prizes base remainder i (p ∷ ps) =
    ground (arith, total-bubble_prizes base remainder (i + 1) ps)

-- Rounding down and giving a chip more to the first players shares out everything.
share_all :
    (pot n : ℕ)
    → pot / suc n * suc n
        + (min (0 + suc n) (pot - pot / suc n * suc n) - min 0 (pot - pot / suc n * suc n))
      ≡ pot
share_all pot n =
    let whole : pot / suc n * suc n ≤ pot = grind arith in
    let rest : pot - pot / suc n * suc n < suc n = grind arith in ground arith

shared :
    (pot n : ℕ) (sorted : List Bust)
    → length sorted ≡ suc n
    → sum_by (λ (e : ℕ × ℕ). e.1) (bubble_prizes (pot / suc n) (pot - pot / suc n * suc n) 0 sorted)
      ≡ pot
shared pot n sorted e =
    total-bubble_prizes (pot / suc n) (pot - pot / suc n * suc n) 0 sorted ∙ rw e (share_all pot n)

-- Players who bust at once share out the prizes of their places to the last chip.
pub resolve_bubble_total :
    (busts : List Bust) (prizes : List ℕ)
    → 0 < length busts
    → sum_by (λ (e : ℕ × ℕ). e.1) (resolve_bubble busts prizes)
      ≡ sum_by (λ x. x) (take (length busts) prizes)
unfolding resolve_bubble
resolve_bubble_total [] prizes h = absurd (omega arith)
resolve_bubble_total (p ∷ ps) prizes h =
    let sorted = sort_by (λ (a b : Bust). leb b.stack a.stack) (p ∷ ps) in
    let size : length sorted ≡ suc (length ps) =
      length-sort_by (λ (a b : Bust). leb b.stack a.stack) (p ∷ ps) in
    rw size (shared (total (take (suc (length ps)) prizes)) (length ps) sorted size)

-- The indices of the fractions.
AreBelow : ℕ → List Fraction → Type 0
AreBelow n = All (λ (e : Fraction). e.0 < n)

with_index-AreBelow : (i n : ℕ) (fs : List ℕ) → i + length fs ≤ n → AreBelow n (with_index i fs)
unfolding AreBelow
with_index-AreBelow i n [] h = tt
with_index-AreBelow i n (f ∷ fs) h = (omega arith, with_index-AreBelow (i + 1) n fs (omega arith))

length-with_index : (i : ℕ) (fs : List ℕ) → length (with_index i fs) ≡ length fs
length-with_index i [] = refl
length-with_index i (f ∷ fs) = ap suc (length-with_index (i + 1) fs)

round_up-total :
    (n : ℕ) (order : List Fraction) (floored : List ℕ)
    → n ≤ length order
    → AreBelow (length floored) order
    → (r : List ℕ) × (round_up n order floored ≡ some r) × (total r ≡ total floored + n)
unfolding round_up AreBelow
round_up-total zero order floored h inside = (floored, refl, omega arith)
round_up-total (suc n) [] floored h inside = absurd (omega arith)
round_up-total (suc n) (e ∷ order) floored h inside =
    let more = add_one e.0 floored in
    let (r, found, sum) =
      round_up-total n order more (omega arith) (rw (length-add_one e.0 floored) (inside.1)) in
    (r, found, omega (arith, sum, total-add_one e.0 floored inside.0))

-- `calculateIcmPayouts` returns payouts that add up to the prizes, if the expectations rounded down lack at
-- most one chip for each player.
pub round_payouts_total :
    (floored fractions : List ℕ) (prizes : ℕ)
    → length fractions ≡ length floored
    → sum_by (λ x. x) floored ≤ prizes
    → prizes ≤ sum_by (λ x. x) floored + length floored
    → (r : List ℕ) × (round_payouts floored fractions prizes ≡ some r)
      × (sum_by (λ x. x) r ≡ prizes)
unfolding round_payouts AreBelow
round_payouts_total floored fractions prizes same low high =
    let before = λ (a b : Fraction). leb b.1 a.1 in
    let order = sort_by before (with_index 0 fractions) in
    let size : length order ≡ length floored =
      length-sort_by before (with_index 0 fractions) ∙ length-with_index 0 fractions ∙ same in
    let inside : AreBelow (length floored) order =
      All-sort_by (λ (e : Fraction). e.0 < length floored) before (with_index 0 fractions)
        (with_index-AreBelow 0 (length floored) fractions (omega arith)) in
    let (r, found, sum) =
      round_up-total (prizes - total floored) order floored (omega arith) inside in
    (r, found, omega (arith, sum, low))
