-- ===== src/Deck/Undefined.antt =====
-- Proofs about `shuffle` when a random word is negative.
use pokerhub.Prelude.{
  ℕ, arith, ◌<◌, ◌≤◌, List, ◌≡◌, get_elem?, Option, ◌⊎◌, Bool, ◌∷◌, set, length, Bool-cases, suc,
  some, ltb, ◌+◌, none, ◌∙◌, ◌-◌, true, zero, map, false, inl, if◌then◌else◌, ap, [], le→ltb, inr,
  ltb→lt, refl, subst, sym,
}
use pokerhub.Deck.{
  Digest, IsBytes, word, draw, rounds_down, Slots, swap_at, shuffle_from, shuffle, read_at,
}
use pokerhub.Prelude.Int.{pos, negsuc, ℤ}
use pokerhub.Deck.Shuffle.{draw-le, length-map-some}

word-le : (d : Digest) → IsBytes d → 128 ≤ d.b0 → 2147483648 ≤ word d
unfolding word
word-le d b h = omega arith

draw_negative : (d : Digest) (i : ℕ) → IsBytes d → 128 ≤ d.b0 → (n : ℕ) × (draw d i ≡ negsuc n)
unfolding draw
draw_negative d i b h =
    rw (le→ltb _ _ (word-le d b h)) (branch (rounds_down (4294967296 - word d) i) _ _)
  where
    branch : (t : Bool) (m k : ℕ) → (n : ℕ) × ((if t then negsuc m else negsuc k) ≡ negsuc n)
    branch true m k = (m, refl)
    branch false m k = (k, refl)

-- Later rounds write at smaller indices or at negative ones.
get_elem?-set_above :
    (os : List (Option ℕ)) (i n : ℕ) (v : Option ℕ)
    → i < n
    → get_elem? (set os i v) n ≡ get_elem? os n
get_elem?-set_above [] i n v h = refl
get_elem?-set_above (o ∷ os) i zero v h = absurd (omega arith)
get_elem?-set_above (o ∷ os) zero (suc n) v h = refl
get_elem?-set_above (o ∷ os) (suc i) (suc n) v h = get_elem?-set_above os i n v (omega arith)

draw-lt :
    (d : Digest) (i : ℕ)
    → IsBytes d
    → ((j : ℕ) × (draw d i ≡ pos j) × (j ≤ i)) ⊎ ((n : ℕ) × (draw d i ≡ negsuc n))
draw-lt d i b = elim (Bool-cases (ltb d.b0 128)) [
  | inl small ↦ inl (draw-le d i b (ltb→lt _ _ small))
  | inr big ↦ inr (draw_negative d i b (ground arith))
]

swap_at-above :
    (a : Slots) (i n : ℕ) (j : ℤ)
    → i < n
    → ((m : ℕ) × (j ≡ pos m) × (m ≤ i)) ⊎ ((m : ℕ) × (j ≡ negsuc m))
    → get_elem? (swap_at a i j).items n ≡ get_elem? a.items n
unfolding swap_at
swap_at-above a i n (pos m) h (inl (k, e, le)) =
    let same : m ≡ k = ground arith in
    get_elem?-set_above _ m n _ (omega (arith, same)) ∙ get_elem?-set_above a.items i n _ h
swap_at-above a i n (negsuc m) h _ = get_elem?-set_above a.items i n _ h
swap_at-above a i n (pos m) h (inr (k, e)) = ground arith

shuffle_from-above :
    (hash : ℕ → Digest) (i k n : ℕ) (a : Slots)
    → ((m : ℕ) → IsBytes (hash m))
    → i < n
    → get_elem? (shuffle_from hash i k a).items n ≡ get_elem? a.items n
unfolding shuffle_from
shuffle_from-above hash zero k n a bytes h = refl
shuffle_from-above hash (suc i) k n a bytes h =
    shuffle_from-above hash i (k + 1) n (swap_at a (suc i) (draw (hash k) (suc i))) bytes
      (omega arith)
    ∙ swap_at-above a (suc i) n (draw (hash k) (suc i)) h (draw-lt (hash k) (suc i) (bytes k))

get_elem?-set_self :
    (os : List (Option ℕ)) (i : ℕ) (v : Option ℕ)
    → i < length os
    → get_elem? (set os i v) i ≡ some v
get_elem?-set_self [] i v h = absurd (omega arith)
get_elem?-set_self (o ∷ os) zero v h = refl
get_elem?-set_self (o ∷ os) (suc i) v h = get_elem?-set_self os i v (omega arith)

read_none : (a : Slots) (n : ℕ) → a.extra ≡ [] → read_at a (negsuc n) ≡ none
unfolding read_at
read_none a n e = rw e refl

shuffle_from-last :
    (hash : ℕ → Digest) (i : ℕ) (a : Slots)
    → ((n : ℕ) → IsBytes (hash n))
    → 128 ≤ (hash 0).b0
    → suc i < length a.items
    → a.extra ≡ []
    → get_elem? (shuffle_from hash (suc i) 0 a).items (suc i) ≡ some none
unfolding shuffle_from swap_at
shuffle_from-last hash i a bytes high h e =
    shuffle_from-above hash i 1 (suc i) (swap_at a (suc i) (draw (hash 0) (suc i))) bytes
      (omega arith)
    ∙ first (draw (hash 0) (suc i)) (draw_negative (hash 0) (suc i) (bytes 0) high)
  where
    first :
        (j : ℤ)
        → ((n : ℕ) × (j ≡ negsuc n))
        → get_elem? (swap_at a (suc i) j).items (suc i) ≡ some none
    first (pos m) (n, same) = ground arith
    first (negsuc m) _ =
        get_elem?-set_self a.items (suc i) (read_at a (negsuc m)) h ∙ ap some (read_none a m e)

-- With a first digest byte of 128 or more the last slot of a shuffle of two or more cards is
-- undefined: no card stands there.
pub shuffle_undefined :
    (hash : ℕ → Digest) (x y : ℕ) (rest : List ℕ)
    → ((n : ℕ) → IsBytes (hash n))
    → 128 ≤ (hash 0).b0
    → get_elem? (shuffle hash (x ∷ y ∷ rest)) (suc (length rest)) ≡ some none
unfolding shuffle
shuffle_undefined hash x y rest bytes high =
    let start : Slots = record { items = map some (x ∷ y ∷ rest); extra = [] } in
    let last : suc (suc (length rest)) - 1 ≡ suc (length rest) = omega arith in
    subst (λ k. get_elem? (shuffle_from hash k 0 start).items (suc (length rest)) ≡ some none)
      (sym last)
      (shuffle_from-last hash (length rest) start bytes high (omega (arith, length-map-some rest))
        refl)
