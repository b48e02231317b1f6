-- ===== src/Tournament/Free.antt =====
-- Proofs about players who may be moved, and about the elements of tables.
use pokerhub.Prelude.{
  ==-self, inr, ◌≤◌, sum_by, length, refl, inl, ◌≡◌, ◌<◌, arith, ne_of_==, Bool-cases, sym, suc,
  ◌∙◌, ◌==◌, ==_of_ne, [], subst, set, true, eq_of_==, ◌∷◌, List, ◌≢◌, ℕ, zero, length-set, false,
}
use pokerhub.Tournament.Balance.{set_moved, last_moved, is_eligible, table_at, Moves}
use pokerhub.Tournament.Sizes.{table_at-set_other, sum_by-set}
use pokerhub.Prelude.Count.{count}
use pokerhub.Prelude.All.{All}

-- Every player of a table may be moved.
abbrev pub IsFree : ℕ → ℕ → Moves → List ℕ → Type 0
IsFree hand avoid moved = All (λ p. is_eligible moved hand avoid p ≡ true)

module _ (P : List ℕ → Type 0) where
  All-of_table_at : (ts : List (List ℕ)) → ((j : ℕ) → j < length ts → P (table_at ts j)) → All P ts
  All-of_table_at [] h = tt
  All-of_table_at (t ∷ ts) h =
      (h 0 (omega arith), All-of_table_at ts (λ j inside. h (suc j) (omega arith)))

  pub All-of_set :
      (ts : List (List ℕ)) (i : ℕ) (t : List ℕ)
      → ((j : ℕ) → j < length ts → i ≢ j → P (table_at ts j))
      → P t
      → All P (set ts i t)
  All-of_set [] i t h ht = tt
  All-of_set (u ∷ us) zero t h ht =
      (ht, All-of_table_at us (λ j inside. h (suc j) (omega arith) (λ e. omega (arith, e))))
  All-of_set (u ∷ us) (suc i) t h ht = (
    h 0 (omega arith) (λ e. omega (arith, e)),
    All-of_set us i t (λ j inside other. h (suc j) (omega arith) (λ e. other (omega (arith, e))))
        ht,
  )

pub le_sum :
    (f : List ℕ → ℕ) (ts : List (List ℕ)) (j : ℕ) → j < length ts → f (table_at ts j) ≤ sum_by f ts
le_sum f [] j h = absurd (omega arith)
le_sum f (t ∷ ts) zero h = omega arith
le_sum f (t ∷ ts) (suc j) h = omega (arith, le_sum f ts j (omega arith))

-- A player of one table sits at no other.
pub no_other :
    (c : ℕ) (ts : List (List ℕ)) (i j : ℕ)
    → sum_by (count c) ts ≤ 1
    → i < length ts
    → j < length ts
    → i ≢ j
    → 0 < count c (table_at ts i)
    → count c (table_at ts j) ≡ 0
no_other c ts i j once hi hj other seated =
    let gone = set ts i [] in
    let inside : j < length gone = rw (length-set ts i []) hj in
    let rest : count c (table_at ts j) ≤ sum_by (count c) gone =
      rw (table_at-set_other ts i j [] other) at (le_sum (count c) gone j inside) in
    omega (arith, once, seated, rest, sum_by-set (count c) ts i [] hi)

module _ (P : ℕ → Type 0) where
  holds_at : (c : ℕ) (xs : List ℕ) → All P xs → 0 < count c xs → P c
  holds_at c [] h seated = absurd (omega (arith, seated))
  holds_at c (x ∷ xs) h seated = elim (Bool-cases (x == c)) [
    | inl same ↦ subst P (eq_of_== x c same) h.0
    | inr other ↦ holds_at c xs h.1 (omega (arith, rw other at seated))
  ]

  pub All-of_counts : (xs ys : List ℕ) → All P xs → ((c : ℕ) → count c ys ≤ count c xs) → All P ys
  All-of_counts xs [] h fewer = tt
  All-of_counts xs (y ∷ ys) h fewer =
      let self : 0 < count y (y ∷ ys) = rw (==-self y) (omega arith) in
      (
        holds_at y xs h (omega (arith, self, fewer y)),
        All-of_counts xs ys h (λ c. omega (arith, fewer c)),
      )

eligible-set_moved :
    (hand avoid p q : ℕ) (moved : Moves)
    → (q == p) ≡ false
    → is_eligible (set_moved p hand moved) hand avoid q ≡ is_eligible moved hand avoid q
unfolding is_eligible last_moved
eligible-set_moved hand avoid p q moved other =
    let back : (p == q) ≡ false = ==_of_ne p q (λ e. ne_of_== q p other (sym e)) in
    rw (back, is_eligible, last_moved) refl

pub IsFree-set_moved :
    (hand avoid p : ℕ) (moved : Moves) (t : List ℕ)
    → count p t ≡ 0
    → IsFree hand avoid moved t
    → IsFree hand avoid (set_moved p hand moved) t
IsFree-set_moved hand avoid p moved [] absent h = tt
IsFree-set_moved hand avoid p moved (q ∷ t) absent h = elim (Bool-cases (q == p)) [
  | inl same ↦ absurd (omega (arith, rw same at absent))
  | inr other ↦ (
    eligible-set_moved hand avoid p q moved other ∙ h.0,
    IsFree-set_moved hand avoid p moved t (omega (arith, rw other at absent)) h.1,
  )
]
