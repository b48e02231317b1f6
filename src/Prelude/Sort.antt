-- ===== src/Prelude/Sort.antt =====
-- `Array.prototype.sort` with a numeric comparator, as a stable insertion sort, and the
-- distinct elements of a list in the order of their first occurrence (`Array.from(new Set(xs))`).
use pokerhub.Prelude.{
  ℕ, suc, ◌+◌, ◌≤◌, ◌≡◌, refl, Bool, List, [], ◌∷◌, arith, leb, ◌==◌, if◌then◌else◌, length,
  includes,
}
use pokerhub.Prelude.Count.{count, one_if}

module _ {ℓ} {A : Type ℓ} (before : A → A → Bool) where
  -- `x` goes in front of the first element that it is ahead of or level with.
  unfoldable pub insert_by : A → List A → List A
  insert_by x [] = x ∷ []
  insert_by x (y ∷ ys) = if before x y then x ∷ y ∷ ys else y ∷ insert_by x ys

  unfoldable pub sort_by : List A → List A
  unfolding insert_by
  sort_by [] = []
  sort_by (x ∷ xs) = insert_by x (sort_by xs)

-- `sort((a, b) => a - b)`
abbrev pub sort_ascending : List ℕ → List ℕ
sort_ascending = sort_by leb

-- `sort((a, b) => b - a)`
abbrev pub sort_descending : List ℕ → List ℕ
sort_descending = sort_by (λ a b. leb b a)

-- Every element is at least `lo`, and each is at least the one before it.
abbrev pub AscendsFrom : ℕ → List ℕ → Type 0
AscendsFrom lo [] = Unit
AscendsFrom lo (x ∷ xs) = (lo ≤ x) × AscendsFrom x xs

insert_by-AscendsFrom :
    (lo x : ℕ) (xs : List ℕ) → lo ≤ x → AscendsFrom lo xs → AscendsFrom lo (insert_by leb x xs)
unfolding insert_by
insert_by-AscendsFrom lo x [] h s = (h, tt)
insert_by-AscendsFrom lo x (y ∷ ys) h s = ground (arith, insert_by-AscendsFrom y x ys)

pub sort_ascending-AscendsFrom : (xs : List ℕ) → AscendsFrom 0 (sort_ascending xs)
unfolding sort_by
sort_ascending-AscendsFrom [] = tt
sort_ascending-AscendsFrom (x ∷ xs) =
    insert_by-AscendsFrom 0 x (sort_ascending xs) (omega arith) (sort_ascending-AscendsFrom xs)

module _ (before : ℕ → ℕ → Bool) (c : ℕ) where
  count-insert_by :
      (x : ℕ) (xs : List ℕ) → count c (insert_by before x xs) ≡ one_if (x == c) + count c xs
  unfolding insert_by
  count-insert_by x [] = refl
  count-insert_by x (y ∷ ys) = ground (arith, count-insert_by x ys)

  pub count-sort_by : (xs : List ℕ) → count c (sort_by before xs) ≡ count c xs
  unfolding sort_by
  count-sort_by [] = refl
  count-sort_by (x ∷ xs) = omega (arith, count-insert_by x (sort_by before xs), count-sort_by xs)

module _ {ℓ} {A : Type ℓ} (before : A → A → Bool) where
  length-insert_by : (x : A) (xs : List A) → length (insert_by before x xs) ≡ suc (length xs)
  unfolding insert_by
  length-insert_by x [] = refl
  length-insert_by x (y ∷ ys) = ground (arith, length-insert_by x ys)

  pub length-sort_by : (xs : List A) → length (sort_by before xs) ≡ length xs
  unfolding sort_by
  length-sort_by [] = refl
  length-sort_by (x ∷ xs) = omega (arith, length-insert_by x (sort_by before xs), length-sort_by xs)

-- `Array.from(new Set(xs))`, with what has been seen.
unfoldable pub dedup_from : List ℕ → List ℕ → List ℕ
dedup_from seen [] = []
dedup_from seen (x ∷ xs) =
    let fresh = x ∷ dedup_from (x ∷ seen) xs in
    let rest = dedup_from seen xs in if includes x seen then rest else fresh

unfoldable pub dedup : List ℕ → List ℕ
unfolding dedup_from
dedup = dedup_from []
