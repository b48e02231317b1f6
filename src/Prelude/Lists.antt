-- ===== src/Prelude/Lists.antt =====
-- JavaScript arrays as lists: lengths and slices over native numbers, Boolean searches and
-- filters, `pop` from the end, sums.
use Prim.Native.Nat.{ℕ, zero, suc, ◌+◌}
use mathlib.Core.Path.{◌≡◌, refl, ap}
use mathlib.Core.Bool.{Bool, true, false, ◌&&◌, ◌||◌}
use mathlib.Core.List.{List, [], ◌∷◌, ◌++◌}
use mathlib.Core.Option.{Option, none, some}
use native.Mathlib.Omega.{arith}
use pokerhub.Prelude.Tests.{◌==◌, if◌then◌else◌}

module _ {ℓ} {A : Type ℓ} where
  abbrev pub length : List A → ℕ
  length [] = 0
  length (x ∷ xs) = suc (length xs)

  abbrev pub get_elem? : List A → ℕ → Option A
  get_elem? [] i = none
  get_elem? (x ∷ xs) zero = some x
  get_elem? (x ∷ xs) (suc i) = get_elem? xs i

  -- A write out of bounds changes nothing.
  abbrev pub set : List A → ℕ → A → List A
  set [] i v = []
  set (x ∷ xs) zero v = v ∷ xs
  set (x ∷ xs) (suc i) v = x ∷ set xs i v

  -- `slice(0, n)`
  abbrev pub take : ℕ → List A → List A
  take zero xs = []
  take (suc n) [] = []
  take (suc n) (x ∷ xs) = x ∷ take n xs

  -- `filter`
  abbrev pub filter : (A → Bool) → List A → List A
  filter p [] = []
  filter p (x ∷ xs) = let rest = filter p xs in if p x then x ∷ rest else rest

  -- `some`
  abbrev pub any : (A → Bool) → List A → Bool
  any p [] = false
  any p (x ∷ xs) = p x || any p xs

  -- `every`
  abbrev pub all : (A → Bool) → List A → Bool
  all p [] = true
  all p (x ∷ xs) = p x && all p xs

  -- `find`
  abbrev pub find : (A → Bool) → List A → Option A
  find p [] = none
  find p (x ∷ xs) = let rest = find p xs in if p x then some x else rest

  -- The first element that passes is replaced: a write through the object that `find` returns.
  abbrev pub update_first : (A → Bool) → (A → A) → List A → List A
  update_first p f [] = []
  update_first p f (x ∷ xs) = let rest = update_first p f xs in if p x then f x ∷ xs else x ∷ rest

  -- `reduce((a, x) => a + f(x), 0)`
  abbrev pub sum_by : (A → ℕ) → List A → ℕ
  sum_by f [] = 0
  sum_by f (x ∷ xs) = f x + sum_by f xs

  -- `pop()`: the last element and what is left before it.
  abbrev pub pop_cons : A → Option (A × List A) → Option (A × List A)
  pop_cons x none = some (x, [])
  pop_cons x (some (y, r)) = some (y, x ∷ r)

  unfoldable pub pop : List A → Option (A × List A)
  pop [] = none
  pop (x ∷ xs) = pop_cons x (pop xs)

  pub length-append : (xs ys : List A) → length (xs ++ ys) ≡ length xs + length ys
  length-append [] ys = omega arith
  length-append (x ∷ xs) ys = omega (arith, length-append xs ys)

  pub sum_by-append : (f : A → ℕ) (xs ys : List A) → sum_by f (xs ++ ys) ≡ sum_by f xs + sum_by f ys
  sum_by-append f [] ys = omega arith
  sum_by-append f (x ∷ xs) ys = omega (arith, sum_by-append f xs ys)

  pub length-set : (xs : List A) (i : ℕ) (v : A) → length (set xs i v) ≡ length xs
  length-set [] i v = refl
  length-set (x ∷ xs) zero v = refl
  length-set (x ∷ xs) (suc i) v = ap suc (length-set xs i v)

  pub length-update_first :
      (p : A → Bool) (f : A → A) (xs : List A) → length (update_first p f xs) ≡ length xs
  length-update_first p f [] = refl
  length-update_first p f (x ∷ xs) = ground (arith, length-update_first p f xs)

  pub pop_snoc : (xs : List A) (y : A) → pop (xs ++ y ∷ []) ≡ some (y, xs)
  unfolding pop
  pop_snoc [] y = refl
  pop_snoc (x ∷ xs) y = ground (arith, pop_snoc xs y)

  -- What a result of `pop` says of the list.
  abbrev pub IsPopOf : List A → Option (A × List A) → Type ℓ
  IsPopOf xs none = xs ≡ []
  IsPopOf xs (some (y, r)) = xs ≡ r ++ y ∷ []

  cons-IsPopOf :
      (x : A) (xs : List A) (o : Option (A × List A))
      → IsPopOf xs o
      → IsPopOf (x ∷ xs) (pop_cons x o)
  cons-IsPopOf x xs none h = ap (◌∷◌ x) h
  cons-IsPopOf x xs (some (y, r)) h = ap (◌∷◌ x) h

  pub pop-IsPopOf : (xs : List A) → IsPopOf xs (pop xs)
  unfolding pop
  pop-IsPopOf [] = refl
  pop-IsPopOf (x ∷ xs) = cons-IsPopOf x xs (pop xs) (pop-IsPopOf xs)

  pub pop-some : (xs : List A) {y : A} {r : List A} → pop xs ≡ some (y, r) → xs ≡ r ++ y ∷ []
  pop-some xs h = rw h at (pop-IsPopOf xs)

-- `includes`
abbrev pub includes : ℕ → List ℕ → Bool
includes c = any (λ x. x == c)
