-- ===== src/Tournament/Calm.antt =====
-- Proofs about balancing when nobody was moved recently.
use pokerhub.Tournament.Free.{IsFree-set_moved, no_other, All-of_counts, IsFree, All-of_set, le_sum}
use pokerhub.Tournament.Level.{IsHeldUp, Round}
use pokerhub.Prelude.{
  ==-self, inr, ◌≤◌, sum_by, ◌+◌, length, ◌++◌, refl, inl, ◌≡◌, ◌<◌, arith, ne_of_==, ◌⊎◌,
  Bool-cases, Bool, sym, length-append, ◌==◌, [], ◌-◌, subst, set, true, eq_of_==, ◌∷◌, List, ◌≢◌,
  ℕ, false, length-set,
}
use pokerhub.Tournament.Balance.{set_moved, table_at, is_eligible, Moves, spread_of, balance_tables}
use pokerhub.Tournament.Rounds.{move_counts, balance_tables_ends, loop_keeps}
use pokerhub.Tournament.Sizes.{table_at-set_other, All-table_at, IsLevelled, table_at-set_same}
use pokerhub.Prelude.Count.{count}
use pokerhub.Prelude.All.{All-imp, All}

-- A table with a player who may not be moved is larger than no other by more than one.
abbrev IsCalm : ℕ → ℕ → List (List ℕ) × Moves → Type 0
IsCalm hand avoid s =
    All (λ t. IsFree hand avoid s.1 t ⊎ All (λ u. length t ≤ length u + 1) s.0) s.0

All-set :
    (P : List ℕ → Type 0) (ts : List (List ℕ)) (i : ℕ) (t : List ℕ)
    → All P ts
    → P t
    → All P (set ts i t)
All-set P ts i t h ht = All-of_set P ts i t (λ j inside other. All-table_at P ts j inside h) ht

-- A table is no larger than any other by more than one.
abbrev IsSmall : List (List ℕ) → List ℕ → Type 0
IsSmall ts t = All (λ u. length t ≤ length u + 1) ts

-- A round keeps tables calm, if nobody sits twice.
module _ {hand avoid : ℕ} {ts : List (List ℕ)} {moved : Moves} {s : List (List ℕ) × Moves}
    (r : Round hand avoid ts moved s) (once : (c : ℕ) → sum_by (count c) ts ≤ 1)
    (calm : IsCalm hand avoid (ts, moved)) where
  abbrev grown : List ℕ
  grown = table_at ts r.taker ++ r.player ∷ []

  abbrev after_round : List (List ℕ)
  after_round = set (set ts r.giver r.rest) r.taker grown

  abbrev IsKept : List ℕ → Type 0
  IsKept t = IsFree hand avoid (set_moved r.player hand moved) t ⊎ IsSmall after_round t

  length-grown : length grown ≡ length (table_at ts r.taker) + 1
  length-grown = length-append (table_at ts r.taker) (r.player ∷ [])

  -- A bound by all sizes, after the round.
  bound_after :
      (n : ℕ)
      → All (λ u. n ≤ length u + 1) ts
      → n ≤ length r.rest + 1
      → All (λ u. n ≤ length u + 1) after_round
  bound_after n old small =
      All-set (λ u. n ≤ length u + 1) (set ts r.giver r.rest) r.taker grown
        (All-set (λ u. n ≤ length u + 1) ts r.giver r.rest old small)
        (omega
          (arith, length-grown, All-table_at (λ u. n ≤ length u + 1) ts r.taker r.taker_inside old))

  seated : 0 < count r.player (table_at ts r.giver)
  seated = rw (r.counts r.player, ==-self r.player) (omega arith)

  other-IsKept : (j : ℕ) → j < length ts → r.giver ≢ j → IsKept (table_at ts j)
  other-IsKept j inside other =
      elim (All-table_at (λ t. IsFree hand avoid moved t ⊎ IsSmall ts t) ts j inside calm) [
        | inl free ↦ inl (
            IsFree-set_moved hand avoid r.player moved (table_at ts j)
              (no_other r.player ts r.giver j (once r.player) r.giver_inside inside other seated)
              free)
        | inr small ↦
            let low =
              All-table_at (λ u. length (table_at ts j) ≤ length u + 1) ts r.taker r.taker_inside
                small in
            inr (bound_after (length (table_at ts j)) small (omega (arith, low, r.gap, r.size)))
      ]

  rest-IsKept : IsKept r.rest
  rest-IsKept =
      elim (All-table_at (λ t. IsFree hand avoid moved t ⊎ IsSmall ts t) ts r.giver r.giver_inside
        calm) [
          | inl free ↦
              let alone : count r.player r.rest ≡ 0 = omega (
                arith,
                rw (==-self r.player) at (r.counts r.player),
                once r.player,
                le_sum (count r.player) ts r.giver r.giver_inside,
              ) in
              inl (
                IsFree-set_moved hand avoid r.player moved r.rest alone (
                  All-of_counts (λ p. is_eligible moved hand avoid p ≡ true) (table_at ts r.giver)
                    r.rest free (λ c. omega (arith, r.counts c))))
          | inr small ↦
              let low =
                All-table_at (λ u. length (table_at ts r.giver) ≤ length u + 1) ts r.taker
                  r.taker_inside small in
              absurd (omega (arith, low, r.gap))
        ]

  grown-IsKept : IsKept grown
  grown-IsKept = inr (
      rw length-grown (
        bound_after (length (table_at ts r.taker) + 1)
          (All-imp ts (λ u h. omega (arith, h)) r.above) (omega (arith, r.gap, r.size))))

  round-IsCalm : IsCalm hand avoid s
  round-IsCalm = subst (IsCalm hand avoid) (sym r.result) (
      All-of_set IsKept (set ts r.giver r.rest) r.taker grown
        (λ j inside other. elim (Bool-cases (r.giver == j)) [
          | inl same ↦
              let e = eq_of_== r.giver j same in
              subst (λ i. IsKept (table_at (set ts r.giver r.rest) i)) e
                (rw (table_at-set_same ts r.giver r.rest r.giver_inside) rest-IsKept)
          | inr unlike ↦
              let old : j < length ts = rw (length-set ts r.giver r.rest) at inside in
              let distinct = ne_of_== r.giver j unlike in
              rw (table_at-set_other ts r.giver j r.rest distinct) (other-IsKept j old distinct)
        ])
        grown-IsKept)

nobody :
    (test : ℕ → Bool) (t : List ℕ)
    → All (λ p. test p ≡ true) t
    → All (λ p. test p ≡ false) t
    → length t ≡ 0
nobody test [] fit unfit = refl
nobody test (p ∷ t) fit unfit = absurd (cc (fit.0, unfit.0))

both :
    {P Q R : List ℕ → Type 0} (ts : List (List ℕ))
    → ((t : List ℕ) → P t → Q t → R t)
    → All P ts
    → All Q ts
    → All R ts
both [] f hp hq = tt
both (t ∷ ts) f hp hq = (f t hp.0 hq.0, both ts f hp.1 hq.1)

held-IsLevelled :
    (hand avoid : ℕ) (s : List (List ℕ) × Moves)
    → IsCalm hand avoid s
    → IsHeldUp hand avoid s
    → IsLevelled s.0
held-IsLevelled hand avoid (ts, moved) calm (i, inside, below, unfit) =
    elim (All-table_at (λ t. IsFree hand avoid moved t ⊎ IsSmall ts t) ts i inside calm) [
      | inl free ↦
          let empty = nobody (is_eligible moved hand avoid) (table_at ts i) free unfit in
          (0, All-imp ts (λ t h. (omega arith, omega (arith, h, empty))) below)
      | inr small ↦ (
        length (table_at ts i) - 1,
        both ts (λ t low high. (omega (arith, low), omega (arith, high))) small below,
      )
    ]

-- When nobody sits twice and nobody was moved too recently, balancing makes the sizes of the tables differ by
-- at most one.
pub balance_tables-IsLevelled :
    (ts : List (List ℕ)) (moved : Moves) (hand avoid : ℕ)
    → ((c : ℕ) → sum_by (count c) ts ≤ 1)
    → All (IsFree hand avoid moved) ts
    → IsLevelled (balance_tables ts moved hand avoid).0
unfolding balance_tables
balance_tables-IsLevelled ts moved hand avoid once free =
    let (calm, single) : IsCalm hand avoid (balance_tables ts moved hand avoid)
        × ((c : ℕ) → sum_by (count c) (balance_tables ts moved hand avoid).0 ≤ 1) =
      loop_keeps (λ s. IsCalm hand avoid s × ((c : ℕ) → sum_by (count c) s.0 ≤ 1)) hand avoid
        (λ us kept s r h. (round-IsCalm r h.1 h.0, λ c. omega (arith, h.1 c, move_counts c r)))
        (spread_of ts + 1) (ts, moved) (All-imp ts (λ t h. inl h) free, once) in
    elim ((balance_tables_ends ts moved hand avoid).1) [
      | inl level ↦ level
      | inr held ↦ held-IsLevelled hand avoid (balance_tables ts moved hand avoid) calm held
    ]
