-- ===== src/Engine/Stacks.antt =====
-- Proofs about `reserveStacks`, which reserves the same stack for every player under one reference.
use pokerhub.Wallet.Record.{find_account, find_named, is_recorded, record_entries}
use pokerhub.Prelude.{◌∷◌, refl, ap, ◌∙◌, List, false, none, ◌≡◌, [], sym, ℕ, ◌++◌}
use pokerhub.Wallet.Types.{AccountName, RefId, RefType, plain, done, Ledger, JournalEntry, Account}
use pokerhub.Wallet.Charges.{repeated, appended, pool_row-recorded, reserve_funds_found}
use pokerhub.Table.Types.{Player}
use pokerhub.Engine.Funds.{reserve_stacks}
use pokerhub.Wallet.Hand.{reserve_funds}
use pokerhub.Wallet.Sound.{pair_of}
use pokerhub.Prelude.Int.{ℤ, pos}
use pokerhub.Prelude.All.{All}

module _ (hash : RefType → RefId → ℕ → ℤ → ℕ) (hand currency amount : ℕ) where
  -- A row of the journal has the hash of the reserve account's movement.
  abbrev IsTaken : Account → Ledger → Type 0
  IsTaken pool l =
      (js : List JournalEntry) × (j : JournalEntry) × (l.journals ≡ js ++ j ∷ [])
      × (j.hash ≡ hash RefType.reserve (plain hand) pool.id (pos amount))

  -- A player with that stack and an account.
  abbrev pub CanPay : Ledger → Player → Type 0
  CanPay l p = (p.stack ≡ amount) × ((a : Account) × (find_account p.id currency l ≡ done a))

  skipped :
      (l : Ledger) (pool : Account) (p : Player)
      → find_named AccountName.reserve currency l ≡ done pool
      → IsTaken pool l
      → CanPay l p
      → reserve_funds hash p.id (pos p.stack) (plain hand) currency none l ≡ done l
  skipped l pool p found (js, j, e, h) (stack, (rival, paid)) = rw stack (
      reserve_funds_found hash (plain hand) (pos amount) p.id currency none l paid found
      ∙ repeated hash (plain hand) (pos amount) rival pool l
          (pool_row-recorded hash (plain hand) (pos amount) l rival pool js j e h))

  others_skipped :
      (l : Ledger) (pool : Account) (ps : List Player)
      → find_named AccountName.reserve currency l ≡ done pool
      → IsTaken pool l
      → All (CanPay l) ps
      → reserve_stacks hash hand currency ps l ≡ done l
  unfolding reserve_stacks
  others_skipped l pool [] found taken h = refl
  others_skipped l pool (p ∷ ps) found taken h =
      rw (skipped l pool p found taken h.0) (others_skipped l pool ps found taken h.1)

  -- `reserveStacks` for players with the same stack takes it from the first of them alone: once it is
  -- newly booked, the calls for the others return and change nothing, if they have accounts and the reserve
  -- account is still the same.
  pub only_first_charged :
      (p : Player) (ps : List Player) (l n : Ledger) {user pool again : Account}
      → p.stack ≡ amount
      → find_account p.id currency l ≡ done user
      → find_named AccountName.reserve currency l ≡ done pool
      → is_recorded hash RefType.reserve (plain hand) (pair_of user pool (pos amount)) l ≡ false
      → reserve_funds hash p.id (pos amount) (plain hand) currency none l ≡ done n
      → find_named AccountName.reserve currency n ≡ done again
      → again.id ≡ pool.id
      → All (CanPay n) ps
      → reserve_stacks hash hand currency (p ∷ ps) l ≡ done n
  unfolding reserve_stacks
  only_first_charged p ps l n {user} {pool} {again} stack found found_pool fresh first found_again
        same h =
      let booked : record_entries hash RefType.reserve (plain hand) (pair_of user pool (pos amount))
            none l
          ≡ done n =
        sym
          (reserve_funds_found hash (plain hand) (pos amount) p.id currency none l found found_pool)
        ∙ first in
      let (js, j, e, row) = appended hash (plain hand) (pos amount) user pool l n fresh booked in
      rw stack (
        rw first (
          others_skipped n again ps found_again
            (js, j, e, row ∙ ap (λ i. hash RefType.reserve (plain hand) i (pos amount)) (sym same))
            h))
