-- ===== src/Tournament/Level.antt =====
-- Proofs about the result of balancing.
use pokerhub.Prelude.{
  ◌<◌, ◌∷◌, Option-cases, arith, set, length, none, List, ◌+◌, ◌≡◌, refl, Option, [], ◌≤◌,
  Bool-cases, ◌⊎◌, ◌++◌, false, Bool, ℕ, inr, inl, some, true, ap, ◌≢◌,
}
use pokerhub.Tournament.Balance.{
  take_last, is_eligible, table_at, extremes, Moves, is_level, balance_once, set_moved,
}
use pokerhub.Prelude.Count.{count}
use pokerhub.Prelude.All.{All, All-imp}
use pokerhub.Tournament.Sizes.{
  IsPlace, level-IsLevelled, IsLevelled, uneven_places, table_at-set_other, extremes_bound,
}

-- What `take_last` returns of a table.
IsTaken : (ℕ → Bool) → List ℕ → Option (ℕ × List ℕ) → Type 0
IsTaken test ps none = All (λ p. test p ≡ false) ps
IsTaken test ps (some (q, rest)) =
    (test q ≡ true)
    × (length ps ≡ length rest + 1)
    × ((c : ℕ) → count c ps ≡ count c rest + count c (q ∷ []))

take_last-IsTaken : (test : ℕ → Bool) (ps : List ℕ) → IsTaken test ps (take_last test ps)
unfolding take_last IsTaken
take_last-IsTaken test [] = tt
take_last-IsTaken test (p ∷ ps) = elim (Option-cases (take_last test ps)) [
  | inr ((q, rest), found) ↦
      let taken = rw found at (take_last-IsTaken test ps) in
      rw found (taken.0, omega (arith, taken.1), λ c. omega (arith, taken.2 c))
  | inl missing ↦
      let unfit = rw missing at (take_last-IsTaken test ps) in
      elim (Bool-cases (test p)) [
        | inl fit ↦ rw missing (rw fit (fit, omega arith, λ c. omega arith))
        | inr also ↦ rw missing (rw also (also, unfit))
      ]
]

-- What a round does: a player leaves a largest table for a smallest one.
pub record Round (hand avoid : ℕ) (ts : List (List ℕ)) (moved : Moves) (s : List (List ℕ) × Moves)
    : Type 0 where
  pub giver : ℕ
  pub taker : ℕ
  pub player : ℕ
  pub rest : List ℕ
  pub giver_inside : giver < length ts
  pub taker_inside : taker < length ts
  pub gap : length (table_at ts taker) + 1 < length (table_at ts giver)
  pub below : All (λ t. length t ≤ length (table_at ts giver)) ts
  pub above : All (λ t. length (table_at ts taker) ≤ length t) ts
  pub fit : is_eligible moved hand avoid player ≡ true
  pub size : length (table_at ts giver) ≡ length rest + 1
  pub counts : (c : ℕ) → count c (table_at ts giver) ≡ count c rest + count c (player ∷ [])
  pub result : s ≡ (
    set (set ts giver rest) taker (table_at ts taker ++ player ∷ []),
    set_moved player hand moved,
  )

-- A largest table whose players all were moved too recently.
abbrev pub IsHeldUp : ℕ → ℕ → List (List ℕ) × Moves → Type 0
IsHeldUp hand avoid (ts, moved) =
    (i : ℕ) × (i < length ts)
    × All (λ t. length t ≤ length (table_at ts i)) ts
    × All (λ p. is_eligible moved hand avoid p ≡ false) (table_at ts i)

place_of :
    (ts : List (List ℕ)) (i n : ℕ)
    → IsPlace 0 ts i n
    → (i < length ts) × (length (table_at ts i) ≡ n)
place_of ts i n (k, inside, place, same) =
    let e : i ≡ k = omega (arith, place) in rw e (inside, same)

-- The bounds of the sizes, by the tables that have them.
bounds_of :
    (ts : List (List ℕ)) (low : ℕ)
    → (extremes ts).min_size ≡ some low
    → All (λ t. (low ≤ length t) × (length t ≤ (extremes ts).max_size)) ts
bounds_of ts low found =
    All-imp ts (λ t h. let above : low ≤ length t = rw found at (h.0) in (above, h.1))
      (extremes_bound ts)

pub apart :
    (ts : List (List ℕ)) (i j : ℕ) → length (table_at ts j) + 1 < length (table_at ts i) → i ≢ j
apart ts i j h e = absurd (omega (arith, h, ap (λ k. length (table_at ts k)) e))

pub balance_cases :
    (hand avoid : ℕ) (ts : List (List ℕ)) (moved : Moves)
    → ((balance_once hand avoid (ts, moved) ≡ none)
        × (IsLevelled ts ⊎ IsHeldUp hand avoid (ts, moved)))
      ⊎ ((s : List (List ℕ) × Moves) × (balance_once hand avoid (ts, moved) ≡ some s)
          × Round hand avoid ts moved s)
unfolding balance_once IsTaken
balance_cases hand avoid ts moved = elim (Bool-cases (is_level (extremes ts))) [
  | inl level ↦ inl (rw level refl, inl (level-IsLevelled ts level))
  | inr uneven ↦
      let giver = (extremes ts).max_index in
      let taker = (extremes ts).min_index in
      let (low, found_low, gap, small, large) = uneven_places ts uneven in
      let (taker_inside, low_size) = place_of ts taker low small in
      let (giver_inside, high_size) = place_of ts giver (extremes ts).max_size large in
      let wide : length (table_at ts taker) + 1 < length (table_at ts giver) =
        omega (arith, gap, low_size, high_size) in
      let bounds = bounds_of ts low found_low in
      let test = is_eligible moved hand avoid in
      let taken = take_last-IsTaken test (table_at ts giver) in
      elim (Option-cases (take_last test (table_at ts giver))) [
        | inl missing ↦
            let unfit : All (λ p. test p ≡ false) (table_at ts giver) = rw missing at taken in
            inl (
              rw uneven (rw missing refl),
              inr (
                giver,
                giver_inside,
                All-imp ts (λ t h. omega (arith, h.1, high_size)) bounds,
                unfit,
              ),
            )
        | inr ((p, rest), found) ↦
            let parts = rw found at taken in
            inr (
              (set (set ts giver rest) taker (table_at ts taker ++ p ∷ []), set_moved p hand moved),
              rw uneven (
                  rw found
                    (rw (table_at-set_other ts giver taker rest (apart ts giver taker wide)) refl)),
              record {
                giver = giver;
                taker = taker;
                player = p;
                rest = rest;
                giver_inside = giver_inside;
                taker_inside = taker_inside;
                gap = wide;
                below = All-imp ts (λ t h. omega (arith, h.1, high_size)) bounds;
                above = All-imp ts (λ t h. omega (arith, h.0, low_size)) bounds;
                fit = parts.0;
                size = parts.1;
                counts = parts.2;
                result = refl;
              },
            )
      ]
]
