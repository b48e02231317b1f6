-- ===== src/Prelude/Assoc.antt =====
-- A map with numbers as keys, as the list of its entries, the latest first.
use pokerhub.Prelude.{
  ℕ, List, [], ◌∷◌, Option, none, some, ◌==◌, if◌then◌else◌, ◌≡◌, refl, ==-self, Bool-cases, inl,
  inr, false, eq_of_==,
}

module _ {ℓ} {A : Type ℓ} where
  -- `get`
  unfoldable pub read_at : ℕ → List (ℕ × A) → Option A
  read_at k [] = none
  read_at k ((j, v) ∷ m) = let rest = read_at k m in if j == k then some v else rest

  -- `set`
  abbrev pub set_at : ℕ → A → List (ℕ × A) → List (ℕ × A)
  set_at k v m = (k, v) ∷ m

  -- `delete`
  unfoldable pub remove_at : ℕ → List (ℕ × A) → List (ℕ × A)
  remove_at k [] = []
  remove_at k ((j, v) ∷ m) = let rest = remove_at k m in if j == k then rest else (j, v) ∷ rest

  pub read-set_self : (k : ℕ) (v : A) (m : List (ℕ × A)) → read_at k (set_at k v m) ≡ some v
  unfolding read_at
  read-set_self k v m = rw (==-self k) refl

  pub read-set_other :
      (k j : ℕ) (v : A) (m : List (ℕ × A))
      → (j == k) ≡ false
      → read_at k (set_at j v m) ≡ read_at k m
  unfolding read_at
  read-set_other k j v m h = rw h refl

  pub read-remove_self : (k : ℕ) (m : List (ℕ × A)) → read_at k (remove_at k m) ≡ none
  unfolding read_at remove_at
  read-remove_self k [] = refl
  read-remove_self k ((j, v) ∷ m) = elim (Bool-cases (j == k)) [
    | inl same ↦ rw same (read-remove_self k m)
    | inr other ↦ rw other (rw other (read-remove_self k m))
  ]

  pub read-remove_other :
      (k j : ℕ) (m : List (ℕ × A)) → (j == k) ≡ false → read_at k (remove_at j m) ≡ read_at k m
  unfolding read_at remove_at
  read-remove_other k j [] h = refl
  read-remove_other k j ((i, v) ∷ m) h = elim (Bool-cases (i == j)) [
    | inl same ↦
        let apart : (i == k) ≡ false = rw (eq_of_== i j same) h in
        rw same (rw apart (read-remove_other k j m h))
    | inr other ↦ elim (Bool-cases (i == k)) [
      | inl found ↦ rw other (rw found refl)
      | inr lost ↦ rw other (rw lost (read-remove_other k j m h))
    ]
  ]
