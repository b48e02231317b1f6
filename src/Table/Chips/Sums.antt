-- ===== src/Table/Chips/Sums.antt =====
-- Sums over the players, and what a bet does to them.
use pokerhub.Table.Types.{GameState, Player, ok, SidePot}
use pokerhub.Prelude.{
  false, ◌≡◌, some, ◌∷◌, arith, Bool, sum_by, sym, find, map, refl, [], List, subst, ℕ, filter,
  update_first, ◌+◌,
}
use pokerhub.Table.Bets.{has_id, find_player}

abbrev pub stacks : List Player → ℕ
stacks = sum_by (λ p. p.stack)

abbrev pub bets : List Player → ℕ
bets = sum_by (λ p. p.bet)

abbrev pub side_total : List SidePot → ℕ
side_total = sum_by (λ pot. pot.amount)

-- All chips of the hand.
abbrev pub chips : GameState → ℕ
chips s = stacks s.players + s.pot

-- The pot is what the side pots and the bets of the running round add up to.
abbrev pub IsFunded : GameState → Type 0
IsFunded s = s.pot ≡ side_total s.side_pots + bets s.players

module _ {ℓ} {A : Type ℓ} (f : A → ℕ) (q : A → Bool) (g : A → A) where
  pub sum_by-update_first :
      (xs : List A) (x : A)
      → find q xs ≡ some x
      → sum_by f (update_first q g xs) + f x ≡ sum_by f xs + f (g x)
  sum_by-update_first [] x e = ground arith
  sum_by-update_first (y ∷ xs) x e = ground (arith, sum_by-update_first xs x)

  -- An update that leaves the term alone leaves the sum alone.
  pub sum_by-update_same :
      (xs : List A) → ((x : A) → f (g x) ≡ f x) → sum_by f (update_first q g xs) ≡ sum_by f xs
  sum_by-update_same [] same = refl
  sum_by-update_same (y ∷ xs) same = ground (arith, sum_by-update_same xs same, same y)

  pub sum_by-map : (xs : List A) → ((x : A) → f (g x) ≡ f x) → sum_by f (map g xs) ≡ sum_by f xs
  sum_by-map [] same = refl
  sum_by-map (y ∷ xs) same = omega (arith, same y, sum_by-map xs same)

  pub sum_by-filter :
      (xs : List A) → ((x : A) → q x ≡ false → f x ≡ 0) → sum_by f (filter q xs) ≡ sum_by f xs
  sum_by-filter [] none_lost = refl
  sum_by-filter (y ∷ xs) none_lost = ground (arith, sum_by-filter xs none_lost, none_lost y)

pub find-has_id : (i : ℕ) (xs : List Player) (p : Player) → find (has_id i) xs ≡ some p → p.id ≡ i
find-has_id i [] p e = ground arith
find-has_id i (x ∷ xs) p e = ground (arith, find-has_id i xs p)

pub find_player-find :
    (i : ℕ) (s : GameState) {p : Player}
    → find_player i s ≡ ok p
    → find (has_id p.id) s.players ≡ some p
unfolding find_player
find_player-find i s {p} e =
    let found : find (has_id i) s.players ≡ some p = ground arith in
    subst (λ j. find (has_id j) s.players ≡ some p) (sym (find-has_id i s.players p found)) found
