-- ===== src/Tournament/Balance.antt =====
-- `balanceTables` and `balanceTournament` of `tournament.service.ts`. A table is the list of its players, who
-- are numbers; `recentlyMoved` is an association list.
use pokerhub.Prelude.{
  if◌then◌else◌, ◌∷◌, List, set, ℕ, ◌++◌, [], ◌==◌, ◌+◌, get_elem?, Option, zero, leb, length, Bool,
  ltb, sum_by, some, suc, none, ◌*◌, true,
}

abbrev pub Moves : Type 0
Moves = List (ℕ × ℕ)

unfoldable pub last_moved : ℕ → Moves → Option ℕ
last_moved p [] = none
last_moved p ((q, hand) ∷ m) = if q == p then some hand else last_moved p m

-- `recentlyMoved.set(player, currentHand)`: a later entry stands before an earlier one.
abbrev pub set_moved : ℕ → ℕ → Moves → Moves
set_moved p hand m = (p, hand) ∷ m

-- The maximum, the minimum and their first indices after the tables so far.
pub record Extremes : Type 0 where
  pub max_size : ℕ
  pub max_index : ℕ
  pub min_size : Option ℕ
  pub min_index : ℕ

abbrev pub is_smaller : ℕ → Option ℕ → Bool
is_smaller n none = true
is_smaller n (some m) = ltb n m

-- The body of the `forEach`.
abbrev pub extremes_step : ℕ → List ℕ → Extremes → Extremes
extremes_step i t e =
    let n = length t in
    record {
      max_size = if ltb e.max_size n then n else e.max_size;
      max_index = if ltb e.max_size n then i else e.max_index;
      min_size = if is_smaller n e.min_size then some n else e.min_size;
      min_index = if is_smaller n e.min_size then i else e.min_index;
    }

-- The `forEach` from index `i` on.
unfoldable pub extremes_from : ℕ → List (List ℕ) → Extremes → Extremes
extremes_from i [] e = e
extremes_from i (t ∷ ts) e = extremes_from (i + 1) ts (extremes_step i t e)

unfoldable pub extremes : List (List ℕ) → Extremes
unfolding extremes_from
extremes ts =
    extremes_from 0 ts (record { max_size = 0; max_index = 0; min_size = none; min_index = 0 })

-- `currentHand - (recentlyMoved.get(p) ?? -Infinity) >= avoidWithin`
unfoldable pub is_eligible : Moves → ℕ → ℕ → ℕ → Bool
unfolding last_moved
is_eligible moved hand avoid p = elim (last_moved p moved) [
  | none ↦ true
  | some last ↦ leb (last + avoid) hand
]

-- The last player of a table who may be moved, and the others.
unfoldable pub take_last : (ℕ → Bool) → List ℕ → Option (ℕ × List ℕ)
take_last test [] = none
take_last test (p ∷ ps) = elim (take_last test ps) [
  | some (q, rest) ↦ some (q, p ∷ rest)
  | none ↦ if test p then some (p, ps) else none
]

abbrev pub table_at : List (List ℕ) → ℕ → List ℕ
table_at ts i = elim (get_elem? ts i) [ none ↦ [] | some t ↦ t ]

-- `max - min <= 1`; with no table `min` is infinite.
abbrev pub is_level : Extremes → Bool
is_level e = elim e.min_size [ none ↦ true | some low ↦ leb e.max_size (low + 1) ]

-- One round of the loop; none when it breaks.
unfoldable pub balance_once : ℕ → ℕ → List (List ℕ) × Moves → Option (List (List ℕ) × Moves)
unfolding extremes is_eligible take_last
balance_once hand avoid (ts, moved) =
    let e = extremes ts in
    if is_level e
    then none
    else elim (take_last (is_eligible moved hand avoid) (table_at ts e.max_index)) [
      | none ↦ none
      | some (p, rest) ↦
          let without = set ts e.max_index rest in
          some (
            set without e.min_index (table_at without e.min_index ++ p ∷ []),
            set_moved p hand moved,
          )
    ]

-- The loop, with fuel; the fuel that `balance_tables` gives is more than the rounds it can take.
unfoldable pub balance_loop : ℕ → ℕ → ℕ → List (List ℕ) × Moves → List (List ℕ) × Moves
unfolding balance_once
balance_loop zero hand avoid s = s
balance_loop (suc fuel) hand avoid s = elim (balance_once hand avoid s) [
  | none ↦ s
  | some next_state ↦ balance_loop fuel hand avoid next_state
]

-- The sum of the squares of the sizes, which each round lowers.
abbrev pub spread_of : List (List ℕ) → ℕ
spread_of = sum_by (λ (t : List ℕ). length t * length t)

-- `balanceTables(tables, recentlyMoved, currentHand, avoidWithin)`
unfoldable pub balance_tables : List (List ℕ) → Moves → ℕ → ℕ → List (List ℕ) × Moves
unfolding balance_loop
balance_tables ts moved hand avoid = balance_loop (spread_of ts + 1) hand avoid (ts, moved)
