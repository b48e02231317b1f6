-- ===== src/Prelude/All.antt =====
-- A predicate on every element of a list, and what keeps it.
use pokerhub.Prelude.{
  List, true, ◌∷◌, false, includes, some, zero, take, get_elem?, Bool, filter, ℕ, [], if◌then◌else◌,
  suc, ◌++◌, find, Option, none, arith, sum_by, ◌≡◌, refl, inr, inl, Bool-cases,
}
use pokerhub.Prelude.Sort.{dedup, dedup_from, insert_by, sort_by}

module _ {ℓ κ} {A : Type ℓ} (P : A → Type κ) where
  abbrev pub All : List A → Type κ
  All [] = Unit
  All (x ∷ xs) = P x × All xs

  pub All-append : (xs ys : List A) → All xs → All ys → All (xs ++ ys)
  All-append [] ys hx hy = hy
  All-append (x ∷ xs) ys hx hy = (hx.0, All-append xs ys hx.1 hy)

  All-if : (b : Bool) (xs ys : List A) → All xs → All ys → All (if b then xs else ys)
  All-if true xs ys hx hy = hx
  All-if false xs ys hx hy = hy

  pub All-filter : (p : A → Bool) (xs : List A) → All xs → All (filter p xs)
  All-filter p [] h = tt
  All-filter p (x ∷ xs) h =
      All-if (p x) (x ∷ filter p xs) (filter p xs) (h.0, All-filter p xs h.1) (All-filter p xs h.1)

  pub All-take : (n : ℕ) (xs : List A) → All xs → All (take n xs)
  All-take zero xs h = tt
  All-take (suc n) [] h = tt
  All-take (suc n) (x ∷ xs) h = (h.0, All-take n xs h.1)

  module _ (before : A → A → Bool) where
    All-insert_by : (x : A) (xs : List A) → P x → All xs → All (insert_by before x xs)
    unfolding insert_by
    All-insert_by x [] hx h = (hx, tt)
    All-insert_by x (y ∷ ys) hx h =
        All-if (before x y) (x ∷ y ∷ ys) (y ∷ insert_by before x ys) (hx, h)
          (h.0, All-insert_by x ys hx h.1)

    pub All-sort_by : (xs : List A) → All xs → All (sort_by before xs)
    unfolding sort_by
    All-sort_by [] h = tt
    All-sort_by (x ∷ xs) h = All-insert_by x (sort_by before xs) h.0 (All-sort_by xs h.1)

  -- The same of what may be an element.
  abbrev pub OptionAll : Option A → Type κ
  OptionAll none = Unit
  OptionAll (some x) = P x

  pub get_elem?-OptionAll : (xs : List A) (i : ℕ) → All xs → OptionAll (get_elem? xs i)
  get_elem?-OptionAll [] i h = tt
  get_elem?-OptionAll (x ∷ xs) zero h = h.0
  get_elem?-OptionAll (x ∷ xs) (suc i) h = get_elem?-OptionAll xs i h.1

  OptionAll-if :
      (b : Bool) (o r : Option A) → OptionAll o → OptionAll r → OptionAll (if b then o else r)
  OptionAll-if true o r ho hr = ho
  OptionAll-if false o r ho hr = hr

  pub find-OptionAll : (p : A → Bool) (xs : List A) → All xs → OptionAll (find p xs)
  find-OptionAll p [] h = tt
  find-OptionAll p (x ∷ xs) h =
      OptionAll-if (p x) (some x) (find p xs) h.0 (find-OptionAll p xs h.1)

module _ {κ} (P : ℕ → Type κ) where
  All-dedup_from : (seen xs : List ℕ) → All P xs → All P (dedup_from seen xs)
  unfolding dedup_from
  All-dedup_from seen [] h = tt
  All-dedup_from seen (x ∷ xs) h =
      All-if P (includes x seen) (dedup_from seen xs) (x ∷ dedup_from (x ∷ seen) xs)
        (All-dedup_from seen xs h.1) (h.0, All-dedup_from (x ∷ seen) xs h.1)

  pub All-dedup : (xs : List ℕ) → All P xs → All P (dedup xs)
  unfolding dedup
  All-dedup = All-dedup_from []

pub All-imp {ℓ κ μ} :
    {A : Type ℓ} {P : A → Type κ} {Q : A → Type μ} (xs : List A)
    → ((x : A) → P x → Q x)
    → All P xs
    → All Q xs
All-imp [] f h = tt
All-imp (x ∷ xs) f h = (f x h.0, All-imp xs f h.1)

-- Equal terms make equal sums.
pub sum_by-All {ℓ} :
    {A : Type ℓ} (f g : A → ℕ) (xs : List A) → All (λ x. f x ≡ g x) xs → sum_by f xs ≡ sum_by g xs
sum_by-All f g [] h = refl
sum_by-All f g (x ∷ xs) h = omega (arith, h.0, sum_by-All f g xs h.1)

-- What `find` returns passes its test.
pub find-passes {ℓ κ} :
    {A : Type ℓ} (P : A → Type κ) (p : A → Bool) (xs : List A)
    → All P xs
    → OptionAll (λ x. P x × (p x ≡ true)) (find p xs)
find-passes P p [] h = tt
find-passes P p (x ∷ xs) h = elim (Bool-cases (p x)) [
  | inl e ↦ rw e (h.0, e)
  | inr e ↦ rw e (find-passes P p xs h.1)
]
