-- ===== src/Table/Chips/Payout.antt =====
-- Proofs about the stacks after `settlePots`.
use pokerhub.Prelude.{
  le_of_not_ltb, refl, Bool-cases, suc, true, ◌≤◌, any, ◌-◌, List, ◌==◌, length, [], ltb, filter,
  Bool, ◌∙◌, ◌*◌, ◌≡◌, ◌/◌, inl, ℕ, inr, ◌∷◌, arith, ◌+◌, lt_of_leb, le_of_leb, or_right, includes,
  or_left, ==_of_eq, if◌then◌else◌, leb, subst, sum_by, ap, false,
}
use pokerhub.Table.Settle.{
  best_score, pay, split_pot, pay_all, score_in, active_of, is_active_id, contenders_of, pay_pot,
  winners_of, settle_pots, scores_of, pots_of, pay_pots,
}
use pokerhub.Table.Types.{Player, SidePot, GameState}
use pokerhub.Prelude.All.{All-imp, All, All-filter}
use pokerhub.Table.Chips.Sums.{stacks, side_total}
use pokerhub.Table.Round.{is_empty}

-- The player can be paid: an active player has the identifier.
abbrev pub IsPayable : List Player → Player → Type 0
IsPayable players w = any (is_active_id w.id) players ≡ true

any_active-pay :
    (n i : ℕ) (w : Player) (players : List Player)
    → any (is_active_id i) (pay n w players) ≡ any (is_active_id i) players
unfolding pay
any_active-pay n i w [] = refl
any_active-pay n i w (p ∷ ps) = ground (arith, any_active-pay n i w ps)

stacks-pay :
    (n : ℕ) (w : Player) (players : List Player)
    → IsPayable players w
    → stacks (pay n w players) ≡ stacks players + n
unfolding pay
stacks-pay n w [] h = cc
stacks-pay n w (p ∷ ps) h = ground (arith, stacks-pay n w ps)

stacks-pay_all :
    (n : ℕ) (ws players : List Player)
    → All (IsPayable players) ws
    → stacks (pay_all n ws players) ≡ stacks players + n * length ws
unfolding pay_all
stacks-pay_all n [] players h = omega arith
stacks-pay_all n (w ∷ ws) players h =
    let still : All (IsPayable (pay n w players)) ws =
      All-imp ws (λ v hv. any_active-pay n v.id w players ∙ hv) h.1 in
    omega (arith, stacks-pay_all n ws (pay n w players) still, stacks-pay n w players h.0)

any_active-pay_all :
    (n i : ℕ) (ws players : List Player)
    → any (is_active_id i) (pay_all n ws players) ≡ any (is_active_id i) players
unfolding pay_all
any_active-pay_all n i [] players = refl
any_active-pay_all n i (w ∷ ws) players =
    any_active-pay_all n i ws (pay n w players) ∙ any_active-pay n i w players

share-le : (amount k : ℕ) → amount / suc k * suc k ≤ amount
share-le amount k = grind arith

split_remainder :
    (amount : ℕ) (w : Player) (ws players : List Player)
    → All (IsPayable players) (w ∷ ws)
    → stacks (split_pot amount (w ∷ ws) players) ≡ stacks players + amount
unfolding split_pot
split_remainder amount w ws players h =
    let share = amount / length (w ∷ ws) in
    let remainder = amount - share * length (w ∷ ws) in
    let paid = pay_all share (w ∷ ws) players in
    let first : stacks paid ≡ stacks players + share * length (w ∷ ws) =
      stacks-pay_all share (w ∷ ws) players h in
    let payable : IsPayable paid w = any_active-pay_all share w.id (w ∷ ws) players ∙ h.0 in
    elim (Bool-cases (ltb 0 remainder)) [
      | inl more ↦
          rw more
            (omega (arith, first, stacks-pay remainder w paid payable, share-le amount (length ws)))
      | inr exact ↦
          rw exact
            (omega (arith, first, le_of_not_ltb 0 remainder exact, share-le amount (length ws)))
    ]

-- A contender with the best score exists as soon as there is a contender.
best_score-some :
    (scores : List (ℕ × ℕ)) (p : Player) (ps : List Player) (t : ℕ)
    → best_score scores (p ∷ ps) ≡ t
    → any (λ q. score_in scores q == t) (p ∷ ps) ≡ true
unfolding best_score
best_score-some scores p [] t e = or_left _ _ (==_of_eq (score_in scores p) t (omega (arith, e)))
best_score-some scores p (q ∷ ps) t e =
    elim (Bool-cases (leb (best_score scores (q ∷ ps)) (score_in scores p))) [
      | inl ahead ↦
          or_left _ _ (==_of_eq (score_in scores p) t (omega (arith, e, le_of_leb _ _ ahead)))
      | inr behind ↦
          or_right (score_in scores p == t) _
            (best_score-some scores q ps t (omega (arith, e, lt_of_leb _ _ behind)))
    ]

filter-any :
    (t : Player → Bool) (ps : List Player)
    → any t ps ≡ true
    → (w : Player) × (ws : List Player) × (filter t ps ≡ w ∷ ws)
filter-any t [] h = cc
filter-any t (p ∷ ps) h = elim (Bool-cases (t p)) [
  | inl e ↦ (p, filter t ps, rw e refl)
  | inr e ↦ let (w, ws, same) = filter-any t ps (ground arith) in (w, ws, rw e same)
]

active_of-IsPayable : (players : List Player) → All (IsPayable players) (active_of players)
active_of-IsPayable [] = tt
active_of-IsPayable (p ∷ ps) = elim (Bool-cases p.folded) [
  | inl out ↦ rw out (All-imp (active_of ps) (λ w h. ground arith) (active_of-IsPayable ps))
  | inr active ↦
      rw active
        (ground arith, All-imp (active_of ps) (λ w h. ground arith) (active_of-IsPayable ps))
]

includes_players-IsPayable :
    (pot : SidePot) (players : List Player) → All (IsPayable players) (contenders_of pot players)
unfolding contenders_of
includes_players-IsPayable pot players =
    All-filter (IsPayable players) (λ p. includes p.id pot.players) (active_of players)
      (active_of-IsPayable players)

-- The chips of a pot that nobody can win.
abbrev pub forfeited : SidePot → List Player → ℕ
forfeited pot players = if is_empty (contenders_of pot players) then pot.amount else 0

split_pot-nil : (amount : ℕ) (players : List Player) → split_pot amount [] players ≡ players
unfolding split_pot
split_pot-nil amount players = refl

split_contenders :
    (scores : List (ℕ × ℕ)) (amount : ℕ) (cs players : List Player)
    → All (IsPayable players) cs
    → stacks (split_pot amount (winners_of scores cs) players) + (if is_empty cs then amount else 0)
      ≡ stacks players + amount
unfolding winners_of
split_contenders scores amount [] players h =
    ap (λ n. n + amount) (ap stacks (split_pot-nil amount players))
split_contenders scores amount (c ∷ cs) players h =
    let t = λ (p : Player). score_in scores p == best_score scores (c ∷ cs) in
    let (w, ws, e) =
      filter-any t (c ∷ cs) (best_score-some scores c cs (best_score scores (c ∷ cs)) refl) in
    let payable : All (IsPayable players) (w ∷ ws) =
      subst (All (IsPayable players)) e (All-filter (IsPayable players) t (c ∷ cs) h) in
    rw e (omega (arith, split_remainder amount w ws players payable))

pay_pot-stacks :
    (scores : List (ℕ × ℕ)) (pot : SidePot) (players : List Player)
    → stacks (pay_pot scores pot players) + forfeited pot players ≡ stacks players + pot.amount
unfolding pay_pot
pay_pot-stacks scores pot players =
    split_contenders scores pot.amount (contenders_of pot players) players
      (includes_players-IsPayable pot players)

-- Payments move no player into or out of the contenders of a pot.
contenders-pay :
    (pot : SidePot) (n : ℕ) (w : Player) (players : List Player)
    → is_empty (contenders_of pot (pay n w players)) ≡ is_empty (contenders_of pot players)
unfolding contenders_of pay
contenders-pay pot n w [] = refl
contenders-pay pot n w (p ∷ ps) = ground (arith, contenders-pay pot n w ps)

contenders-pay_all :
    (pot : SidePot) (n : ℕ) (ws players : List Player)
    → is_empty (contenders_of pot (pay_all n ws players)) ≡ is_empty (contenders_of pot players)
unfolding pay_all
contenders-pay_all pot n [] players = refl
contenders-pay_all pot n (w ∷ ws) players =
    contenders-pay_all pot n ws (pay n w players) ∙ contenders-pay pot n w players

contenders-split_pot :
    (pot : SidePot) (amount : ℕ) (ws players : List Player)
    → is_empty (contenders_of pot (split_pot amount ws players))
      ≡ is_empty (contenders_of pot players)
unfolding split_pot
contenders-split_pot pot amount [] players = refl
contenders-split_pot pot amount (w ∷ ws) players =
    let share = amount / length (w ∷ ws) in
    let remainder = amount - share * length (w ∷ ws) in
    let paid = pay_all share (w ∷ ws) players in
    elim (Bool-cases (ltb 0 remainder)) [
      | inl more ↦
          rw more
            (contenders-pay pot remainder w paid ∙ contenders-pay_all pot share (w ∷ ws) players)
      | inr exact ↦ rw exact (contenders-pay_all pot share (w ∷ ws) players)
    ]

forfeited-pay_pot :
    (scores : List (ℕ × ℕ)) (q pot : SidePot) (players : List Player)
    → forfeited q (pay_pot scores pot players) ≡ forfeited q players
unfolding pay_pot
forfeited-pay_pot scores q pot players =
    ap (λ b. if b then q.amount else 0)
      (contenders-split_pot q pot.amount (winners_of scores (contenders_of pot players)) players)

-- The chips of all pots that nobody can win.
abbrev pub unclaimed : List SidePot → List Player → ℕ
unclaimed pots players = sum_by (λ pot. forfeited pot players) pots

unclaimed-pay_pot :
    (scores : List (ℕ × ℕ)) (pots : List SidePot) (pot : SidePot) (players : List Player)
    → unclaimed pots (pay_pot scores pot players) ≡ unclaimed pots players
unclaimed-pay_pot scores [] pot players = refl
unclaimed-pay_pot scores (q ∷ pots) pot players =
    omega (arith, forfeited-pay_pot scores q pot players, unclaimed-pay_pot scores pots pot players)

pub pay_pots-stacks :
    (scores : List (ℕ × ℕ)) (pots : List SidePot) (players : List Player)
    → stacks (pay_pots scores pots players) + unclaimed pots players
      ≡ stacks players + side_total pots
unfolding pay_pots
pay_pots-stacks scores [] players = omega arith
pay_pots-stacks scores (pot ∷ pots) players = omega (
  arith,
  pay_pots-stacks scores pots (pay_pot scores pot players),
  unclaimed-pay_pot scores pots pot players,
  pay_pot-stacks scores pot players,
)

-- Settlement accounts for every chip: with a player left in the hand, the stacks grow by the amounts of the
-- pots less those of the pots none of whose players is left, and the pot and the side pots are emptied.
pub settle_pots-stacks :
    (s : GameState)
    → is_empty (active_of s.players) ≡ false
    → (stacks (settle_pots s).players + unclaimed (pots_of s) s.players
        ≡ stacks s.players + side_total (pots_of s))
      × ((settle_pots s).pot ≡ 0)
      × ((settle_pots s).side_pots ≡ [])
unfolding settle_pots
settle_pots-stacks s active = rw active (
  pay_pots-stacks (scores_of s.community_cards (active_of s.players) []) (pots_of s) s.players,
  refl,
  refl,
)
