-- ===== src/Tests/Tournament.antt =====
-- Tournaments of a few players.
use pokerhub.Prelude.{
  ◌*◌, ◌∷◌, ◌≡◌, refl, ◌/◌, arith, ◌⊎◌, some, none, length, ℕ, [], sum_by, List, take,
}
use pokerhub.Tournament.Level.{IsHeldUp}
use pokerhub.Tournament.Balance.{balance_once, balance_tables, last_moved, is_eligible}
use pokerhub.Prelude.Count.{count}
use pokerhub.Tournament.Sums.{round_payouts_total, resolve_bubble_total}
use pokerhub.Tournament.States.{
  here, reg_open, finished, can_finish, Reaches, final_stays, IsReopening,
}
use pokerhub.Tournament.Rounds.{balance_tables_keeps, balance_tables_ends}
use pokerhub.Tournament.Prizes.{Bust, round_payouts, resolve_bubble}
use pokerhub.Tournament.Sizes.{IsLevelled}
use pokerhub.Tournament.Calm.{balance_tables-IsLevelled}

final_stays_example : finished ≡ finished
final_stays_example = final_stays finished finished tt here

can_finish_example : Reaches (λ operation. ¬ IsReopening operation) reg_open finished
can_finish_example = can_finish reg_open (λ x. x)

abbrev busts : List Bust
busts = record { id = 1; stack = 5 } ∷ record { id = 2; stack = 9 } ∷ []

resolve_bubble_total_example :
    sum_by (λ (e : ℕ × ℕ). e.1) (resolve_bubble busts (10 ∷ 5 ∷ []))
    ≡ sum_by (λ x. x) (take (length busts) (10 ∷ 5 ∷ []))
resolve_bubble_total_example = resolve_bubble_total busts (10 ∷ 5 ∷ []) (omega arith)

abbrev percent : ℕ → ℕ → ℕ
percent pool p = pool * p / 100

round_payouts_total_example :
    (r : List ℕ) × (round_payouts (3 ∷ 5 ∷ []) (7 ∷ 2 ∷ []) 9 ≡ some r) × (sum_by (λ x. x) r ≡ 9)
round_payouts_total_example =
    round_payouts_total (3 ∷ 5 ∷ []) (7 ∷ 2 ∷ []) 9 refl (omega arith) (omega arith)

abbrev seating : List (List ℕ)
seating = (1 ∷ 2 ∷ 3 ∷ 4 ∷ []) ∷ (5 ∷ []) ∷ []

balanced : (balance_tables seating [] 20 10).0 ≡ (1 ∷ 2 ∷ 3 ∷ []) ∷ (5 ∷ 4 ∷ []) ∷ []
unfolding balance_tables
balanced = refl

balance_tables_ends_example :
    (balance_once 20 10 (balance_tables seating [] 20 10) ≡ none)
    × (IsLevelled (balance_tables seating [] 20 10).0
        ⊎ IsHeldUp 20 10 (balance_tables seating [] 20 10))
balance_tables_ends_example = balance_tables_ends seating [] 20 10

balance_tables_keeps_example :
    sum_by (count 4) (balance_tables seating [] 20 10).0 ≡ sum_by (count 4) seating
balance_tables_keeps_example = balance_tables_keeps seating [] 20 10 4

balance_tables-IsLevelled_example : IsLevelled (balance_tables seating [] 20 10).0
unfolding is_eligible last_moved
balance_tables-IsLevelled_example =
    balance_tables-IsLevelled seating [] 20 10 (λ c. ground arith)
      ((refl, (refl, (refl, (refl, tt)))), ((refl, tt), tt))
