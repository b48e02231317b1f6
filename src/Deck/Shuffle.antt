-- ===== src/Deck/Shuffle.antt =====
-- Proofs about the cards that `shuffle` keeps, and about the slots that it leaves without one.
use pokerhub.Prelude.{
  ℕ, zero, suc, ◌+◌, ◌-◌, ◌*◌, ◌/◌, ◌≤◌, ◌<◌, ◌≡◌, refl, ap, ◌∙◌, Option, none, some, List, [], ◌∷◌,
  arith, ◌==◌, length, get_elem?, set, sum_by, map, Bool-cases, inl, inr, length-set, ◌⊎◌, lt→ltb,
}
use pokerhub.Prelude.Int.{ℤ, pos, negsuc}
use pokerhub.Prelude.Count.{one_if, count}
use pokerhub.Deck.{
  Digest, IsBytes, word, draw, Slots, flat, lookup_extra, read_at, write_at, swap_at, shuffle_from,
  shuffle,
}
use pokerhub.Deck.Build.{HasNumber, AddsNothing}

-- A slot holds nothing, or a card that passes.
abbrev Holds : (ℕ → Type 0) → Option ℕ → Type 0
Holds P none = Unit
Holds P (some x) = P x

module _ (P : ℕ → Type 0) where
  abbrev AllHold : List (Option ℕ) → Type 0
  AllHold [] = Unit
  AllHold (o ∷ os) = Holds P o × AllHold os

  abbrev ExtraHold : List (ℕ × Option ℕ) → Type 0
  ExtraHold [] = Unit
  ExtraHold ((_, o) ∷ os) = Holds P o × ExtraHold os

  abbrev SlotsHold : Slots → Type 0
  SlotsHold a = AllHold a.items × ExtraHold a.extra

  get_elem?-Holds : (os : List (Option ℕ)) (n : ℕ) → AllHold os → Holds P (flat (get_elem? os n))
  get_elem?-Holds [] n h = tt
  get_elem?-Holds (o ∷ os) zero h = h.0
  get_elem?-Holds (o ∷ os) (suc n) h = get_elem?-Holds os n h.1

  set-AllHold :
      (os : List (Option ℕ)) (n : ℕ) (v : Option ℕ) → AllHold os → Holds P v → AllHold (set os n v)
  set-AllHold [] n v h hv = tt
  set-AllHold (o ∷ os) zero v h hv = (hv, h.1)
  set-AllHold (o ∷ os) (suc n) v h hv = (h.0, set-AllHold os n v h.1 hv)

  lookup_extra-Holds : (k : ℕ) (m : List (ℕ × Option ℕ)) → ExtraHold m → Holds P (lookup_extra k m)
  unfolding lookup_extra
  lookup_extra-Holds k [] h = tt
  lookup_extra-Holds k ((j, o) ∷ m) h = elim (Bool-cases (j == k)) [
    | inl e ↦ rw e h.0
    | inr e ↦ rw e (lookup_extra-Holds k m h.1)
  ]

  read_at-Holds : (a : Slots) (j : ℤ) → SlotsHold a → Holds P (read_at a j)
  unfolding read_at
  read_at-Holds a (pos n) h = get_elem?-Holds a.items n h.0
  read_at-Holds a (negsuc n) h = lookup_extra-Holds n a.extra h.1

  write_at-SlotsHold :
      (a : Slots) (j : ℤ) (v : Option ℕ) → SlotsHold a → Holds P v → SlotsHold (write_at a j v)
  unfolding write_at
  write_at-SlotsHold a (pos n) v h hv = (set-AllHold a.items n v h.0 hv, h.1)
  write_at-SlotsHold a (negsuc n) v h hv = (h.0, (hv, h.1))

  swap_at-SlotsHold : (a : Slots) (i : ℕ) (j : ℤ) → SlotsHold a → SlotsHold (swap_at a i j)
  unfolding swap_at
  swap_at-SlotsHold a i j h =
      write_at-SlotsHold (write_at a (pos i) (read_at a j)) j (read_at a (pos i))
        (write_at-SlotsHold a (pos i) (read_at a j) h (read_at-Holds a j h))
        (read_at-Holds a (pos i) h)

  shuffle_from-SlotsHold :
      (hash : ℕ → Digest) (i k : ℕ) (a : Slots) → SlotsHold a → SlotsHold (shuffle_from hash i k a)
  unfolding shuffle_from
  shuffle_from-SlotsHold hash zero k a h = h
  shuffle_from-SlotsHold hash (suc i) k a h =
      shuffle_from-SlotsHold hash i (k + 1) (swap_at a (suc i) (draw (hash k) (suc i)))
        (swap_at-SlotsHold a (suc i) (draw (hash k) (suc i)) h)

  AllHold-number :
      (c : ℕ) (os : List (Option ℕ))
      → AllHold os
      → HasNumber c os
      → ((x : ℕ) → x ≡ c → P x → P c)
      → P c
  AllHold-number c [] h m move = absurd m
  AllHold-number c (none ∷ os) h m move = AllHold-number c os h.1 m move
  AllHold-number c (some x ∷ os) h (inl e) move = move x e h.0
  AllHold-number c (some x ∷ os) h (inr m) move = AllHold-number c os h.1 m move

AllHold-map :
    (P : ℕ → Type 0) (xs : List ℕ) → ((c : ℕ) → 0 < count c xs → P c) → AllHold P (map some xs)
AllHold-map P [] h = tt
AllHold-map P (x ∷ xs) h = (h x (ground arith), AllHold-map P xs (λ c m. h c (omega (arith, m))))

-- No card comes out of `shuffle` that did not go in, whatever the digests are.
pub shuffle-AddsNothing : (hash : ℕ → Digest) → AddsNothing (shuffle hash)
unfolding shuffle
shuffle-AddsNothing hash items c m =
    AllHold-number (λ x. 0 < count x items) c _
      (shuffle_from-SlotsHold (λ x. 0 < count x items) hash (length items - 1) 0
        (record { items = map some items; extra = [] })
        (AllHold-map (λ x. 0 < count x items) items (λ d h. h), tt)).0
      m (λ x e h. ground arith)

-- How often a card stands in an array.
abbrev weight : ℕ → Option ℕ → ℕ
weight c none = 0
weight c (some x) = one_if (x == c)

abbrev pub count_slots : ℕ → List (Option ℕ) → ℕ
count_slots c = sum_by (weight c)

sum_by-set :
    (f : Option ℕ → ℕ) (os : List (Option ℕ)) (n : ℕ) (v : Option ℕ)
    → n < length os
    → sum_by f (set os n v) + f (flat (get_elem? os n)) ≡ sum_by f os + f v
sum_by-set f [] n v h = absurd (omega arith)
sum_by-set f (o ∷ os) zero v h = omega arith
sum_by-set f (o ∷ os) (suc n) v h = omega (arith, sum_by-set f os n v (omega arith))

word-lt : (d : Digest) → IsBytes d → d.b0 < 128 → word d < 2147483648
unfolding word
word-lt d b h = omega arith

share-le : (w i : ℕ) → w < 2147483648 → w * (i + 1) / 0xffffffff ≤ i
share-le w i h =
    let product : w * (i + 1) ≤ 2147483648 * (i + 1) = grind arith in omega (arith, product)

-- A word below 2 ^ 31 picks an index at most `i`.
pub draw-le : (d : Digest) (i : ℕ) → IsBytes d → d.b0 < 128 → (j : ℕ) × (draw d i ≡ pos j) × (j ≤ i)
unfolding draw
draw-le d i b h =
    let small : word d < 2147483648 = word-lt d b h in
    (word d * (i + 1) / 0xffffffff, rw (lt→ltb _ _ small), share-le (word d) i small)

get_elem?-set_same :
    (os : List (Option ℕ)) (i j : ℕ) (v : Option ℕ)
    → v ≡ flat (get_elem? os j)
    → flat (get_elem? (set os i v) j) ≡ flat (get_elem? os j)
get_elem?-set_same [] i j v e = refl
get_elem?-set_same (o ∷ os) zero zero v e = e
get_elem?-set_same (o ∷ os) zero (suc j) v e = refl
get_elem?-set_same (o ∷ os) (suc i) zero v e = refl
get_elem?-set_same (o ∷ os) (suc i) (suc j) v e = get_elem?-set_same os i j v e

-- An exchange of two slots within the array keeps its length and how often each card occurs.
swap_at-count :
    (a : Slots) (i j c : ℕ)
    → i < length a.items
    → j < length a.items
    → (length (swap_at a i (pos j)).items ≡ length a.items)
      × (count_slots c (swap_at a i (pos j)).items ≡ count_slots c a.items)
unfolding swap_at read_at write_at
swap_at-count a i j c hi hj =
    let v = flat (get_elem? a.items j) in
    let u = flat (get_elem? a.items i) in
    let os = set a.items i v in
    let len : length os ≡ length a.items = length-set a.items i v in
    (
      length-set os j u ∙ len,
      omega (
        arith,
        sum_by-set (weight c) a.items i v hi,
        sum_by-set (weight c) os j u (omega (arith, len)),
        ap (weight c) (get_elem?-set_same a.items i j v refl),
      ),
    )

shuffle_from-count :
    (hash : ℕ → Digest) (i k c : ℕ) (a : Slots)
    → ((n : ℕ) → IsBytes (hash n) × ((hash n).b0 < 128))
    → (i < length a.items) ⊎ (i ≡ 0)
    → count_slots c (shuffle_from hash i k a).items ≡ count_slots c a.items
unfolding shuffle_from
shuffle_from-count hash zero k c a plain h = refl
shuffle_from-count hash (suc i) k c a plain (inr h) = absurd (omega arith)
shuffle_from-count hash (suc i) k c a plain (inl h) =
    let (j, e, le) = draw-le (hash k) (suc i) (plain k).0 (plain k).1 in
    let (len, same) = swap_at-count a (suc i) j c h (omega arith) in
    rw (e, shuffle_from)
      (shuffle_from-count hash i (k + 1) c (swap_at a (suc i) (pos j)) plain
          (inl (omega (arith, len)))
        ∙ same)

count_slots-map : (c : ℕ) (xs : List ℕ) → count_slots c (map some xs) ≡ count c xs
count_slots-map c [] = refl
count_slots-map c (x ∷ xs) = omega (arith, count_slots-map c xs)

pub length-map-some : (xs : List ℕ) → length (map some xs) ≡ length xs
length-map-some [] = refl
length-map-some (x ∷ xs) = ap suc (length-map-some xs)

-- When the first byte of every digest is below 128, `shuffle` permutes its cards: each card stands in
-- the result as often as in the input.
pub count-shuffle :
    (hash : ℕ → Digest) (items : List ℕ)
    → ((n : ℕ) → IsBytes (hash n) × ((hash n).b0 < 128))
    → (c : ℕ) → count_slots c (shuffle hash items) ≡ count c items
unfolding shuffle
count-shuffle hash items plain c =
    shuffle_from-count hash (length items - 1) 0 c (record { items = map some items; extra = [] })
      plain (start items)
    ∙ count_slots-map c items
  where
    start : (xs : List ℕ) → (length xs - 1 < length (map some xs)) ⊎ (length xs - 1 ≡ 0)
    start [] = inr (omega arith)
    start (x ∷ xs) = inl (omega (arith, length-map-some xs))
