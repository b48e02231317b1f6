-- ===== src/Tournament/Sizes.antt =====
-- Proofs about the sizes of tables, the largest and the smallest.
use pokerhub.Prelude.{
  inl, ◌≡◌, refl, some, suc, ◌≢◌, [], ◌<◌, ap, Option, ℕ, length, ◌∷◌, set, none, ◌⊎◌, List, ◌+◌,
  arith, ◌≤◌, sum_by, zero, inr, eq_of_some, Bool-cases, ltb, sym, ◌∙◌, false, true, le_of_not_ltb,
  Option-cases, if◌then◌else◌, ltb→lt, lt_of_leb, le_of_leb, leb,
}
use pokerhub.Tournament.Balance.{
  table_at, Extremes, extremes_from, extremes_step, is_smaller, extremes, is_level,
}
use pokerhub.Prelude.All.{All, All-imp}

-- A write at an index replaces what the table there adds to a sum.
pub sum_by-set :
    (f : List ℕ → ℕ) (ts : List (List ℕ)) (i : ℕ) (t : List ℕ)
    → i < length ts
    → sum_by f (set ts i t) + f (table_at ts i) ≡ sum_by f ts + f t
sum_by-set f [] i t h = absurd (omega arith)
sum_by-set f (u ∷ us) zero t h = omega arith
sum_by-set f (u ∷ us) (suc i) t h = omega (arith, sum_by-set f us i t (omega arith))

pub table_at-set_other :
    (ts : List (List ℕ)) (i j : ℕ) (t : List ℕ) → i ≢ j → table_at (set ts i t) j ≡ table_at ts j
table_at-set_other [] i j t h = refl
table_at-set_other (u ∷ us) zero zero t h = absurd (h refl)
table_at-set_other (u ∷ us) zero (suc j) t h = refl
table_at-set_other (u ∷ us) (suc i) zero t h = refl
table_at-set_other (u ∷ us) (suc i) (suc j) t h = table_at-set_other us i j t (λ e. h (ap suc e))

pub table_at-set_same :
    (ts : List (List ℕ)) (i : ℕ) (t : List ℕ) → i < length ts → table_at (set ts i t) i ≡ t
table_at-set_same [] i t h = absurd (omega arith)
table_at-set_same (u ∷ us) zero t h = refl
table_at-set_same (u ∷ us) (suc i) t h = table_at-set_same us i t (omega arith)

module _ (P : List ℕ → Type 0) where
  pub All-table_at : (ts : List (List ℕ)) (i : ℕ) → i < length ts → All P ts → P (table_at ts i)
  All-table_at [] i h all_hold = absurd (omega arith)
  All-table_at (t ∷ ts) zero h all_hold = all_hold.0
  All-table_at (t ∷ ts) (suc i) h all_hold = All-table_at ts i (omega arith) all_hold.1

-- A table of the list from index `i` on, with its size.
abbrev pub IsPlace : ℕ → List (List ℕ) → ℕ → ℕ → Type 0
IsPlace i ts index size =
    (k : ℕ) × (k < length ts) × (index ≡ i + k) × (length (table_at ts k) ≡ size)

next-IsPlace :
    (i : ℕ) (t : List ℕ) (ts : List (List ℕ)) (index size : ℕ)
    → IsPlace (i + 1) ts index size
    → IsPlace i (t ∷ ts) index size
next-IsPlace i t ts index size (k, inside, place, same) = (suc k, omega arith, omega arith, same)

-- The first place of the list, for an entry that the step may have changed.
first-IsPlace : (i : ℕ) (t : List ℕ) (ts : List (List ℕ)) → IsPlace i (t ∷ ts) i (length t)
first-IsPlace i t ts = (0, omega arith, omega arith, refl)

largest-IsPlace :
    (i : ℕ) (ts : List (List ℕ)) (e : Extremes)
    → (((extremes_from i ts e).max_size ≡ e.max_size)
        × ((extremes_from i ts e).max_index ≡ e.max_index))
      ⊎ IsPlace i ts (extremes_from i ts e).max_index (extremes_from i ts e).max_size
unfolding extremes_from
largest-IsPlace i [] e = inl (refl, refl)
largest-IsPlace i (t ∷ ts) e = elim (largest-IsPlace (i + 1) ts (extremes_step i t e)) [
  | inr place ↦ inr (next-IsPlace i t ts _ _ place)
  | inl (size, index) ↦ elim (Bool-cases (ltb e.max_size (length t))) [
    | inl larger ↦ inr (rw size (rw index (rw larger (first-IsPlace i t ts))))
    | inr kept ↦ inl (size ∙ rw kept refl, index ∙ rw kept refl)
  ]
]

smallest-IsPlace :
    (i : ℕ) (ts : List (List ℕ)) (e : Extremes) (low : ℕ)
    → (extremes_from i ts e).min_size ≡ some low
    → (((extremes_from i ts e).min_size ≡ e.min_size)
        × ((extremes_from i ts e).min_index ≡ e.min_index))
      ⊎ IsPlace i ts (extremes_from i ts e).min_index low
unfolding extremes_from
smallest-IsPlace i [] e low found = inl (refl, refl)
smallest-IsPlace i (t ∷ ts) e low found =
    elim (smallest-IsPlace (i + 1) ts (extremes_step i t e) low found) [
      | inr place ↦ inr (next-IsPlace i t ts _ _ place)
      | inl (size, index) ↦ elim (Bool-cases (is_smaller (length t) e.min_size)) [
        | inl smaller ↦
            let same : some low ≡ some (length t) = sym found ∙ size ∙ rw smaller refl in
            inr (rw index (rw smaller (rw (eq_of_some same) (first-IsPlace i t ts))))
        | inr kept ↦ inl (size ∙ rw kept refl, index ∙ rw kept refl)
      ]
    ]

-- A size that is not below the smallest so far.
abbrev pub IsLow : Option ℕ → ℕ → Type 0
IsLow none n = ⊥
IsLow (some low) n = low ≤ n

lower-IsLow : (n m : ℕ) (o : Option ℕ) → IsLow o n → IsLow (if is_smaller m o then some m else o) n
lower-IsLow n m none h = elim h [ ]
lower-IsLow n m (some low) h = elim (Bool-cases (ltb m low)) [
  | inl smaller ↦ rw smaller (omega (arith, ltb→lt m low smaller, h))
  | inr kept ↦ rw kept h
]

lower-IsLow_self : (m : ℕ) (o : Option ℕ) → IsLow (if is_smaller m o then some m else o) m
lower-IsLow_self m none = omega arith
lower-IsLow_self m (some low) = elim (Bool-cases (ltb m low)) [
  | inl smaller ↦ rw smaller (omega arith)
  | inr kept ↦ rw kept (le_of_not_ltb m low kept)
]

from-IsLow :
    (i : ℕ) (ts : List (List ℕ)) (e : Extremes) (n : ℕ)
    → IsLow e.min_size n
    → IsLow (extremes_from i ts e).min_size n
unfolding extremes_from
from-IsLow i [] e n h = h
from-IsLow i (t ∷ ts) e n h =
    from-IsLow (i + 1) ts (extremes_step i t e) n (lower-IsLow n (length t) e.min_size h)

from-le : (i : ℕ) (ts : List (List ℕ)) (e : Extremes) → e.max_size ≤ (extremes_from i ts e).max_size
unfolding extremes_from
from-le i [] e = omega arith
from-le i (t ∷ ts) e = ground (arith, from-le (i + 1) ts (extremes_step i t e))

sizes_bounded :
    (i : ℕ) (ts : List (List ℕ)) (e : Extremes)
    → All
        (λ t.
          IsLow (extremes_from i ts e).min_size (length t)
          × (length t ≤ (extremes_from i ts e).max_size))
        ts
unfolding extremes_from
sizes_bounded i [] e = tt
sizes_bounded i (t ∷ ts) e =
    let after = extremes_step i t e in
    (
      (
        from-IsLow (i + 1) ts after (length t) (lower-IsLow_self (length t) e.min_size),
        ground (arith, from-le (i + 1) ts after),
      ),
      sizes_bounded (i + 1) ts after,
    )

level_of : (e : Extremes) (low : ℕ) → e.min_size ≡ some low → is_level e ≡ leb e.max_size (low + 1)
level_of e low found = rw found refl

level_of_none : (e : Extremes) → e.min_size ≡ none → is_level e ≡ true
level_of_none e empty = rw empty refl

-- The sizes of tables that the loop does not leave: its largest and its smallest table.
pub uneven_places :
    (ts : List (List ℕ))
    → is_level (extremes ts) ≡ false
    → (low : ℕ) × ((extremes ts).min_size ≡ some low)
      × (low + 1 < (extremes ts).max_size)
      × IsPlace 0 ts (extremes ts).min_index low
      × IsPlace 0 ts (extremes ts).max_index (extremes ts).max_size
unfolding extremes
uneven_places ts uneven =
    let start : Extremes = record { max_size = 0; max_index = 0; min_size = none; min_index = 0 } in
    elim (Option-cases (extremes ts).min_size) [
      | inl empty ↦ absurd (cc (level_of_none (extremes ts) empty, uneven))
      | inr (low, found) ↦
          let gap : low + 1 < (extremes ts).max_size =
            lt_of_leb _ _ (sym (level_of (extremes ts) low found) ∙ uneven) in
          let small : IsPlace 0 ts (extremes ts).min_index low =
            elim (smallest-IsPlace 0 ts start low found) [
              | inl (same, index) ↦ absurd (cc (same, found))
              | inr place ↦ place
            ] in
          let large : IsPlace 0 ts (extremes ts).max_index (extremes ts).max_size =
            elim (largest-IsPlace 0 ts start) [
              | inl (same, index) ↦ absurd (omega (arith, same, gap))
              | inr place ↦ place
            ] in
          (low, found, gap, small, large)
    ]

-- Sizes of at least some number and at most one more.
abbrev pub IsLevelled : List (List ℕ) → Type 0
IsLevelled ts = (n : ℕ) × All (λ t. (n ≤ length t) × (length t ≤ n + 1)) ts

pub extremes_bound :
    (ts : List (List ℕ))
    → All (λ t. IsLow (extremes ts).min_size (length t) × (length t ≤ (extremes ts).max_size)) ts
unfolding extremes
extremes_bound ts =
    sizes_bounded 0 ts (record { max_size = 0; max_index = 0; min_size = none; min_index = 0 })

pub level-IsLevelled : (ts : List (List ℕ)) → is_level (extremes ts) ≡ true → IsLevelled ts
level-IsLevelled ts level = elim (Option-cases (extremes ts).min_size) [
  | inl empty ↦ (0, All-imp ts (λ t h. elim (rw empty at (h.0)) [ ]) (extremes_bound ts))
  | inr (low, found) ↦
      let close : (extremes ts).max_size ≤ low + 1 = le_of_leb _ _ (rw found at level) in
      (
        low,
        All-imp ts
            (λ t h.
              let above : low ≤ length t = rw found at (h.0) in (above, omega (arith, close, h.1)))
            (extremes_bound ts),
      )
]
