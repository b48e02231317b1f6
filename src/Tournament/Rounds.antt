-- ===== src/Tournament/Rounds.antt =====
-- Proofs about the rounds of balancing, one after the other.
use pokerhub.Prelude.{
  ◌*◌, ◌+◌, ◌<◌, ◌∙◌, ◌++◌, none, length, arith, sum_by, ap, length-set, [], set, suc, refl, ◌⊎◌,
  zero, length-append, inr, ◌≡◌, ℕ, List, ◌∷◌, inl, sym, subst, some,
}
use pokerhub.Tournament.Balance.{
  balance_once, balance_loop, Moves, balance_tables, spread_of, table_at,
}
use pokerhub.Prelude.Count.{count, count-append}
use pokerhub.Tournament.Sizes.{table_at-set_other, IsLevelled, sum_by-set}
use pokerhub.Tournament.Level.{apart, Round, IsHeldUp, balance_cases}

-- The sum of a round's tables, but for the two that change.
move_sum :
    {hand avoid : ℕ} {ts : List (List ℕ)} {moved : Moves} {s : List (List ℕ) × Moves}
    (f : List ℕ → ℕ) (r : Round hand avoid ts moved s)
    → sum_by f s.0 + f (table_at ts r.taker) + f (table_at ts r.giver)
      ≡ sum_by f ts + f r.rest + f (table_at ts r.taker ++ r.player ∷ [])
move_sum {ts = ts} f r =
    let apart_tables = apart ts r.giver r.taker r.gap in
    let without = set ts r.giver r.rest in
    let inside : r.taker < length without = rw (length-set ts r.giver r.rest) r.taker_inside in
    let taken = sum_by-set f ts r.giver r.rest r.giver_inside in
    let given =
      rw (table_at-set_other ts r.giver r.taker r.rest apart_tables) at
        (sum_by-set f without r.taker (table_at ts r.taker ++ r.player ∷ []) inside) in
    rw (ap (λ x. x.0) r.result) (omega (arith, taken, given))

pub move_counts :
    {hand avoid : ℕ} {ts : List (List ℕ)} {moved : Moves} {s : List (List ℕ) × Moves} (c : ℕ)
    (r : Round hand avoid ts moved s)
    → sum_by (count c) s.0 ≡ sum_by (count c) ts
move_counts {ts = ts} c r =
    omega (
      arith,
      move_sum (count c) r,
      r.counts c,
      count-append c (table_at ts r.taker) (r.player ∷ []),
    )

square : (n : ℕ) → (n + 1) * (n + 1) ≡ n * n + 2 * n + 1
square n = grind arith

move_spread :
    {hand avoid : ℕ} {ts : List (List ℕ)} {moved : Moves} {s : List (List ℕ) × Moves}
    → Round hand avoid ts moved s
    → spread_of s.0 < spread_of ts
move_spread {ts = ts} r =
    let area = λ (t : List ℕ). length t * length t in
    let grown : length (table_at ts r.taker ++ r.player ∷ []) ≡ length (table_at ts r.taker) + 1 =
      length-append (table_at ts r.taker) (r.player ∷ []) in
    let sum = rw (grown, r.size) at (move_sum area r) in
    omega (arith, sum, r.gap, r.size, square (length r.rest), square (length (table_at ts r.taker)))

module _ (fuel hand avoid : ℕ) (s : List (List ℕ) × Moves) where
  loop_stop : balance_once hand avoid s ≡ none → balance_loop (suc fuel) hand avoid s ≡ s
  unfolding balance_loop
  loop_stop stop = rw (stop, balance_loop) refl

  loop_next :
      (next_state : List (List ℕ) × Moves)
      → balance_once hand avoid s ≡ some next_state
      → balance_loop (suc fuel) hand avoid s ≡ balance_loop fuel hand avoid next_state
  unfolding balance_loop
  loop_next next_state found = rw (found, balance_loop) refl

-- The loop ends because it breaks, and not for want of fuel.
abbrev IsDone : ℕ → ℕ → List (List ℕ) × Moves → Type 0
IsDone hand avoid s = (balance_once hand avoid s ≡ none) × (IsLevelled s.0 ⊎ IsHeldUp hand avoid s)

loop_ends :
    (fuel hand avoid : ℕ) (ts : List (List ℕ)) (moved : Moves)
    → spread_of ts < fuel
    → IsDone hand avoid (balance_loop fuel hand avoid (ts, moved))
loop_ends zero hand avoid ts moved h = absurd (omega arith)
loop_ends (suc fuel) hand avoid ts moved h = elim (balance_cases hand avoid ts moved) [
  | inl (stop, reason) ↦
      subst (IsDone hand avoid) (sym (loop_stop fuel hand avoid (ts, moved) stop)) (stop, reason)
  | inr (s, found, r) ↦
      subst (IsDone hand avoid) (sym (loop_next fuel hand avoid (ts, moved) s found))
        (loop_ends fuel hand avoid s.0 s.1 (omega (arith, h, move_spread r)))
]

-- What every round keeps, the loop keeps.
pub loop_keeps :
    (P : List (List ℕ) × Moves → Type 0) (hand avoid : ℕ)
    → ((ts : List (List ℕ)) (moved : Moves) (s : List (List ℕ) × Moves)
        → Round hand avoid ts moved s
        → P (ts, moved)
        → P s)
    → (fuel : ℕ) (s : List (List ℕ) × Moves) → P s
    → P (balance_loop fuel hand avoid s)
unfolding balance_loop
loop_keeps P hand avoid step zero s h = h
loop_keeps P hand avoid step (suc fuel) (ts, moved) h = elim (balance_cases hand avoid ts moved) [
  | inl (stop, reason) ↦ subst P (sym (loop_stop fuel hand avoid (ts, moved) stop)) h
  | inr (s, found, r) ↦
      subst P (sym (loop_next fuel hand avoid (ts, moved) s found))
        (loop_keeps P hand avoid step fuel s (step ts moved s r h))
]

-- The loop of `balanceTables` ends by its own conditions: no further round is possible, and the sizes of the
-- tables differ by at most one, or every player of a largest table was moved too recently.
pub balance_tables_ends :
    (ts : List (List ℕ)) (moved : Moves) (hand avoid : ℕ)
    → (balance_once hand avoid (balance_tables ts moved hand avoid) ≡ none)
      × (IsLevelled (balance_tables ts moved hand avoid).0
          ⊎ IsHeldUp hand avoid (balance_tables ts moved hand avoid))
unfolding balance_tables
balance_tables_ends ts moved hand avoid =
    loop_ends (spread_of ts + 1) hand avoid ts moved (omega arith)

-- Balancing neither loses nor duplicates a player: each sits at the tables as often as before.
pub balance_tables_keeps :
    (ts : List (List ℕ)) (moved : Moves) (hand avoid player : ℕ)
    → sum_by (count player) (balance_tables ts moved hand avoid).0 ≡ sum_by (count player) ts
unfolding balance_tables
balance_tables_keeps ts moved hand avoid player =
    loop_keeps (λ s. sum_by (count player) s.0 ≡ sum_by (count player) ts) hand avoid
      (λ us kept s r h. move_counts player r ∙ h) (spread_of ts + 1) (ts, moved) refl
