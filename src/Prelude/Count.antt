-- ===== src/Prelude/Count.antt =====
-- How often a number occurs in a list. Two lists with the same counts are permutations of one
-- another, and a list with counts of at most one has no repetition.
use pokerhub.Prelude.{
  ℕ, suc, ◌+◌, ◌-◌, ◌≤◌, ◌<◌, ◌≡◌, refl, ap, Bool, true, false, List, [], ◌∷◌, ◌++◌, arith, ◌==◌,
  if◌then◌else◌, length, filter, includes, inl, inr, Bool-cases, eq_of_==,
}

abbrev pub one_if : Bool → ℕ
one_if true = 1
one_if false = 0

abbrev pub count : ℕ → List ℕ → ℕ
count c [] = 0
count c (x ∷ xs) = one_if (x == c) + count c xs

-- No element occurs twice.
abbrev pub IsDistinct : List ℕ → Type 0
IsDistinct xs = (c : ℕ) → count c xs ≤ 1

-- Every element occurs equally often.
abbrev pub SameCounts : List ℕ → List ℕ → Type 0
SameCounts xs ys = (c : ℕ) → count c xs ≡ count c ys

pub count-append : (c : ℕ) (xs ys : List ℕ) → count c (xs ++ ys) ≡ count c xs + count c ys
count-append c [] ys = omega arith
count-append c (x ∷ xs) ys = omega (arith, count-append c xs ys)

pub includes-count : (c : ℕ) (xs : List ℕ) → includes c xs ≡ true → 0 < count c xs
includes-count c [] h = ground arith
includes-count c (x ∷ xs) h = ground (arith, includes-count c xs)

pub not_includes-count : (c : ℕ) (xs : List ℕ) → includes c xs ≡ false → count c xs ≡ 0
not_includes-count c [] h = refl
not_includes-count c (x ∷ xs) h = ground (arith, not_includes-count c xs)

pub includes_of_count : (c : ℕ) (xs : List ℕ) → 0 < count c xs → includes c xs ≡ true
includes_of_count c [] h = ground arith
includes_of_count c (x ∷ xs) h = ground (arith, includes_of_count c xs)

pub count-filter :
    (p : ℕ → Bool) (c : ℕ) (xs : List ℕ) → count c (filter p xs) ≡ (if p c then count c xs else 0)
count-filter p c [] = ground arith
count-filter p c (x ∷ xs) = elim (Bool-cases (x == c)) [
  | inl same ↦
      let e : x ≡ c = eq_of_== x c same in
      elim (Bool-cases (p c)) [
        | inl kept ↦ ground (arith, count-filter p c xs, ap p e)
        | inr dropped ↦ ground (arith, count-filter p c xs, ap p e)
      ]
  | inr other ↦ ground (arith, count-filter p c xs)
]

erase : ℕ → List ℕ → List ℕ
erase c [] = []
erase c (x ∷ xs) = if x == c then xs else x ∷ erase c xs

count-erase : (c d : ℕ) (xs : List ℕ) → count d (erase c xs) ≡ count d xs - one_if (c == d)
unfolding erase
count-erase c d [] = ground arith
count-erase c d (x ∷ xs) = ground (arith, count-erase c d xs)

length-erase : (c : ℕ) (xs : List ℕ) → 0 < count c xs → suc (length (erase c xs)) ≡ length xs
unfolding erase
length-erase c [] h = ground arith
length-erase c (x ∷ xs) h = ground (arith, length-erase c xs)

-- A list whose counts stay below another's is no longer than it.
pub length_of_counts :
    (xs ys : List ℕ) → ((c : ℕ) → count c xs ≤ count c ys) → length xs ≤ length ys
length_of_counts [] ys h = omega arith
length_of_counts (x ∷ xs) ys h =
    let found : 0 < count x ys = ground (arith, h x) in
    let rest : length xs ≤ length (erase x ys) =
      length_of_counts xs (erase x ys) (λ c. ground (arith, h c, count-erase x c ys)) in
    omega (arith, rest, length-erase x ys found)

-- The pigeonhole: counts below another list's that is no longer are equal to it.
pub SameCounts-of_length :
    (xs ys : List ℕ)
    → ((c : ℕ) → count c xs ≤ count c ys)
    → length ys ≤ length xs
    → SameCounts xs ys
SameCounts-of_length xs ys h long c = elim (Bool-cases (count c xs == count c ys)) [
  | inl same ↦ eq_of_== (count c xs) (count c ys) same
  | inr differ ↦
      let more : length (c ∷ xs) ≤ length ys =
        length_of_counts (c ∷ xs) ys (λ d. ground (arith, h d, differ, h c)) in
      absurd (omega (arith, more))
]
