-- ===== src/Table/Deltas.antt =====
-- `SettlementJournal` and `recordDeltas` of `backend/src/game/settlement.ts`, with proofs about the sum of
-- the deltas. The journal is the list of its entries.
use pokerhub.Prelude.Int.{ℤ, pos, ◌+ℤ◌, ◌-ℤ◌, int_laws}
use pokerhub.Table.Types.{GameState, Player}
use pokerhub.Prelude.{
  none, ℕ, sum_by, ◌∷◌, [], map, some, sym, ◌∙◌, ◌≡◌, append_assoc, ap, ◌++◌, List, append-nil,
}
use pokerhub.Table.Round.{lookup}

pub record SettlementEntry : Type 0 where
  pub player_id : ℕ
  pub delta : ℤ

-- `initial.get(player.id) ?? 0`
abbrev pub start_of : List (ℕ × ℕ) → Player → ℕ
start_of initial p = elim (lookup p.id initial) [ none ↦ 0 | some start ↦ start ]

abbrev pub entry_for : List (ℕ × ℕ) → Player → SettlementEntry
entry_for initial p = record { player_id = p.id; delta = pos p.stack -ℤ pos (start_of initial p) }

-- The loop of `recordDeltas`: `entries` and the journal's entries.
unfoldable pub record_each :
    List (ℕ × ℕ)
    → List Player
    → List SettlementEntry
    → List SettlementEntry
    → List SettlementEntry × List SettlementEntry
record_each initial [] entries journal = (entries, journal)
record_each initial (p ∷ ps) entries journal =
    record_each initial ps (entries ++ entry_for initial p ∷ [])
      (journal ++ entry_for initial p ∷ [])

-- `recordDeltas(state, initial, journal)`: the entries that it returns and the journal after it.
unfoldable pub record_deltas :
    GameState → List (ℕ × ℕ) → List SettlementEntry → List SettlementEntry × List SettlementEntry
unfolding record_each
record_deltas s initial journal = record_each initial s.players [] journal

-- The sum of the deltas.
unfoldable pub sum_deltas : List SettlementEntry → ℤ
sum_deltas [] = pos 0
sum_deltas (e ∷ es) = e.delta +ℤ sum_deltas es

sum_deltas-snoc :
    (es : List SettlementEntry) (e : SettlementEntry)
    → sum_deltas (es ++ e ∷ []) ≡ sum_deltas es +ℤ e.delta
unfolding sum_deltas
sum_deltas-snoc [] e = omega int_laws
sum_deltas-snoc (k ∷ es) e = rw (sum_deltas-snoc es e) (omega int_laws)

record_each-sum_deltas :
    (initial : List (ℕ × ℕ)) (ps : List Player) (entries journal : List SettlementEntry)
    → sum_deltas (record_each initial ps entries journal).0
      ≡ sum_deltas entries +ℤ (pos (sum_by (λ p. p.stack) ps) -ℤ pos (sum_by (start_of initial) ps))
unfolding record_each
record_each-sum_deltas initial [] entries journal = omega int_laws
record_each-sum_deltas initial (p ∷ ps) entries journal =
    rw
      (record_each-sum_deltas initial ps (entries ++ entry_for initial p ∷ [])
        (journal ++ entry_for initial p ∷ []))
      (rw (sum_deltas-snoc entries (entry_for initial p)) (omega int_laws))

record_each-journal :
    (initial : List (ℕ × ℕ)) (ps : List Player) (entries journal : List SettlementEntry)
    → (record_each initial ps entries journal).1 ≡ journal ++ map (entry_for initial) ps
unfolding record_each
record_each-journal initial [] entries journal = sym (append-nil journal)
record_each-journal initial (p ∷ ps) entries journal =
    record_each-journal initial ps _ (journal ++ entry_for initial p ∷ [])
    ∙ append_assoc journal (entry_for initial p ∷ []) (map (entry_for initial) ps)

record_each-entries :
    (initial : List (ℕ × ℕ)) (ps : List Player) (entries journal : List SettlementEntry)
    → (record_each initial ps entries journal).0 ≡ entries ++ map (entry_for initial) ps
unfolding record_each
record_each-entries initial [] entries journal = sym (append-nil entries)
record_each-entries initial (p ∷ ps) entries journal =
    record_each-entries initial ps (entries ++ entry_for initial p ∷ []) _
    ∙ append_assoc entries (entry_for initial p ∷ []) (map (entry_for initial) ps)

-- The deltas that `recordDeltas` returns add up to the stacks less what the players had at the start, and
-- the journal grows by just these entries.
pub record_deltas_sum :
    (s : GameState) (initial : List (ℕ × ℕ)) (journal : List SettlementEntry)
    → (sum_deltas (record_deltas s initial journal).0
        ≡ pos (sum_by (λ p. p.stack) s.players) -ℤ pos (sum_by (start_of initial) s.players))
      × ((record_deltas s initial journal).1 ≡ journal ++ (record_deltas s initial journal).0)
unfolding record_deltas sum_deltas
record_deltas_sum s initial journal = (
  record_each-sum_deltas initial s.players [] journal ∙ omega int_laws,
  record_each-journal initial s.players [] journal
      ∙ ap (λ es. journal ++ es) (sym (record_each-entries initial s.players [] journal)),
)
