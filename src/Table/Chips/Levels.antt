-- ===== src/Table/Chips/Levels.antt =====
-- Proofs about `finishBettingRound`: the layers between the levels of the bets.
use pokerhub.Prelude.{
  leb, arith, le_of_leb, ◌∷◌, if◌then◌else◌, [], ◌≤◌, ◌⊎◌, ◌==◌, ℕ, inr, sym, ◌-◌, ◌≡◌, ◌<◌, List,
  lt_of_leb, ◌+◌, eq_of_==, refl, inl, Bool-cases, sum_by, map, length, false, includes, ◌*◌, ◌++◌,
  not, sum_by-append, filter, ltb, ◌∙◌, ap, true,
}
use pokerhub.Prelude.Count.{count}
use pokerhub.Prelude.Sort.{
  AscendsFrom, sort_ascending, dedup_from, count-sort_by, dedup, sort_ascending-AscendsFrom,
}
use pokerhub.Table.Chips.Sums.{stacks, bets, side_total, sum_by-filter, sum_by-map}
use pokerhub.Table.Round.{
  level_pot, finish_betting_round, level_pots, is_empty, clear_bet, levels_of, bettors_of,
}
use pokerhub.Prelude.All.{All-imp, All, sum_by-All}
use pokerhub.Table.Types.{Player, SidePot, GameState}
use pokerhub.Table.Bets.{active_players}

-- What a bet of `b` gives to the pots of the levels.
layers : ℕ → List ℕ → ℕ → ℕ
layers previous [] b = 0
layers previous (l ∷ ls) b = (if leb l b then l - previous else 0) + layers l ls b

layers-below :
    (previous : ℕ) (ls : List ℕ) (b : ℕ)
    → AscendsFrom previous ls
    → b < previous
    → layers previous ls b ≡ 0
unfolding layers
layers-below previous [] b h lt = refl
layers-below previous (l ∷ ls) b h lt =
    ground (arith, h.0, layers-below l ls b h.1 (omega (arith, h.0)))

count-below : (lo : ℕ) (xs : List ℕ) (b : ℕ) → AscendsFrom lo xs → b < lo → count b xs ≡ 0
count-below lo [] b h lt = refl
count-below lo (x ∷ xs) b h lt = ground (arith, h.0, count-below x xs b h.1 (omega (arith, h.0)))

-- A bet that is one of the levels, or the one before them, is paid in full.
layers_lem :
    (previous : ℕ) (ls : List ℕ) (b : ℕ)
    → AscendsFrom previous ls
    → previous ≤ b
    → (0 < count b ls) ⊎ (b ≡ previous)
    → layers previous ls b + previous ≡ b
unfolding layers
layers_lem previous [] b h le (inl m) = absurd (omega arith)
layers_lem previous [] b h le (inr e) = omega arith
layers_lem previous (l ∷ ls) b h le m = elim (Bool-cases (leb l b)) [
  | inl reached ↦
      let at : l ≤ b = le_of_leb l b reached in
      rw reached (omega (arith, h.0, at, layers_lem l ls b h.1 at (later at m)))
  | inr not_reached ↦
      let lt : b < l = lt_of_leb l b not_reached in
      rw not_reached (omega (arith, h.0, layers-below l ls b h.1 lt, early lt m))
]
  where
    later : l ≤ b → (0 < count b (l ∷ ls)) ⊎ (b ≡ previous) → (0 < count b ls) ⊎ (b ≡ l)
    later at (inl c) = elim (Bool-cases (l == b)) [
      | inl e ↦ inr (sym (eq_of_== l b e))
      | inr e ↦ inl (ground arith)
    ]
    later at (inr e) = inr (omega (arith, h.0))

    early : b < l → (0 < count b (l ∷ ls)) ⊎ (b ≡ previous) → b ≡ previous
    early lt (inr e) = e
    early lt (inl c) = absurd (ground (arith, count-below l ls b h.1 lt))

-- The contributors of a level give the same share each.
share-length :
    (k l : ℕ) (ps : List Player)
    → sum_by (λ p. if leb l p.bet then k else 0) ps ≡ k * length (filter (λ p. leb l p.bet) ps)
share-length k l [] = omega arith
share-length k l (p ∷ ps) = elim (Bool-cases (leb l p.bet)) [
  | inl e ↦ rw e (omega (arith, share-length k l ps))
  | inr e ↦ rw e (omega (arith, share-length k l ps))
]

sum_by-add :
    (f g : Player → ℕ) (ps : List Player) → sum_by (λ p. f p + g p) ps ≡ sum_by f ps + sum_by g ps
sum_by-add f g [] = omega arith
sum_by-add f g (p ∷ ps) = omega (arith, sum_by-add f g ps)

sum_by-zero : (ps : List Player) → sum_by (λ p. 0) ps ≡ 0
sum_by-zero [] = refl
sum_by-zero (p ∷ ps) = omega (arith, sum_by-zero ps)

-- A pot of no chips is not entered.
new_pot-side_total :
    (n : ℕ) (pot : SidePot) (pots : List SidePot)
    → pot.amount ≡ n
    → side_total (if n == 0 then pots else pots ++ pot ∷ []) ≡ side_total pots + n
new_pot-side_total n pot pots e =
    ground (arith, sum_by-append (λ (q : SidePot). q.amount) pots (pot ∷ []))

-- The amounts of the new side pots are the layers of all bettors.
level_pots-side_total :
    (previous : ℕ) (ls : List ℕ) (bettors active : List Player) (pots : List SidePot)
    → side_total (level_pots previous ls bettors active pots)
      ≡ side_total pots + sum_by (λ p. layers previous ls p.bet) bettors
unfolding level_pots layers
level_pots-side_total previous [] bettors active pots = omega (arith, sum_by-zero bettors)
level_pots-side_total previous (l ∷ ls) bettors active pots =
    let contributors = filter (λ (p : Player). leb l p.bet) bettors in
    let contenders = filter (λ (p : Player). not p.folded) contributors in
    let pot = level_pot l previous contributors contenders active in
    let n = (l - previous) * length contributors in
    let grown = if n == 0 then pots else pots ++ pot ∷ [] in
    let one : side_total grown ≡ side_total pots + n = new_pot-side_total n pot pots refl in
    omega (
      arith,
      level_pots-side_total l ls bettors active grown,
      one,
      share-length (l - previous) l bettors,
      sum_by-add (λ p. if leb l p.bet then l - previous else 0) (λ p. layers l ls p.bet) bettors,
    )

dedup_from-count :
    (c : ℕ) (seen xs : List ℕ)
    → 0 < count c xs
    → includes c seen ≡ false
    → 0 < count c (dedup_from seen xs)
unfolding dedup_from
dedup_from-count c seen [] h fresh = absurd (omega arith)
dedup_from-count c seen (x ∷ xs) h fresh = elim (Bool-cases (x == c)) [
  | inl same ↦ let e : x ≡ c = eq_of_== x c same in rw e (rw fresh (ground arith))
  | inr other ↦ ground (arith, dedup_from-count c seen xs, dedup_from-count c (x ∷ seen) xs)
]

levels-count : (c : ℕ) (xs : List ℕ) → 0 < count c xs → 0 < count c (sort_ascending (dedup xs))
unfolding dedup
levels-count c xs h = rw (count-sort_by leb c (dedup xs)) (dedup_from-count c [] xs h refl)

map_bet-All : (ps : List Player) → All (λ p. 0 < count p.bet (map (λ q. q.bet) ps)) ps
map_bet-All [] = tt
map_bet-All (p ∷ ps) = (ground arith, All-imp ps (λ q h. omega (arith, h)) (map_bet-All ps))

-- Each bettor's bet is among the levels, so that all of it goes into the pots.
all_layers : (ps : List Player) → sum_by (λ p. layers 0 (levels_of ps) p.bet) ps ≡ bets ps
all_layers ps =
    sum_by-All (λ p. layers 0 (levels_of ps) p.bet) (λ p. p.bet) ps
      (All-imp ps paid (map_bet-All ps))
  where
    paid :
        (p : Player) → 0 < count p.bet (map (λ q. q.bet) ps) → layers 0 (levels_of ps) p.bet ≡ p.bet
    paid p h =
        let levels = levels_of ps in
        omega (
          arith,
          layers_lem 0 levels p.bet (sort_ascending-AscendsFrom (dedup (map (λ q. q.bet) ps)))
              (omega arith) (inl (levels-count p.bet (map (λ q. q.bet) ps) h)),
        )

is_empty-bets : (ps : List Player) → is_empty ps ≡ true → bets ps ≡ 0
is_empty-bets [] e = refl
is_empty-bets (p ∷ ps) e = cc

cleared-bets : (ps : List Player) → bets (map clear_bet ps) ≡ 0
cleared-bets [] = refl
cleared-bets (p ∷ ps) = omega (arith, cleared-bets ps)

-- The bets of a round become side pots, chip for chip, and all bets are cleared.
pub finish_betting_round-funds :
    (s : GameState)
    → (side_total (finish_betting_round s).side_pots ≡ side_total s.side_pots + bets s.players)
      × (bets (finish_betting_round s).players ≡ 0)
      × (stacks (finish_betting_round s).players ≡ stacks s.players)
      × ((finish_betting_round s).pot ≡ s.pot)
unfolding finish_betting_round
finish_betting_round-funds s =
    let bettors = bettors_of s in
    let all_bets : bets bettors ≡ bets s.players =
      sum_by-filter (λ p. p.bet) (λ p. ltb 0 p.bet) (λ p. p) s.players (λ p h. ground arith) in
    elim (Bool-cases (is_empty bettors)) [
      | inl empty ↦
          let quiet : bets bettors ≡ 0 = is_empty-bets bettors empty in
          rw empty (omega (arith, all_bets, quiet), omega (arith, all_bets, quiet), refl, refl)
      | inr some_bets ↦ rw some_bets (
        level_pots-side_total 0 (levels_of bettors) bettors (active_players s) s.side_pots
            ∙ ap (λ n. side_total s.side_pots + n) (all_layers bettors ∙ all_bets),
        cleared-bets s.players,
        sum_by-map (λ p. p.stack) (λ p. true) clear_bet s.players (λ p. refl),
        refl,
      )
    ]
