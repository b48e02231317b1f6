-- ===== src/Engine/Replay.antt =====
-- Proofs about the log of a hand and its replay.
use pokerhub.Prelude.{
  ℕ, List, ◌∷◌, [], ◌+◌, ◌++◌, Option, map, arith, refl, ◌≡◌, sym, length, ap, ◌∙◌, subst, ◌≢◌,
}
use pokerhub.Engine.Run.{apply_logged, Engine, advance, apply_each}
use pokerhub.Table.Types.{Action, Machine, ok, GameState, ◌>>=◌, Result, err, Error}
use pokerhub.Engine.Log.{HandLog, record_action, LogEntry}

abbrev pub actions_of : HandLog → List Action
actions_of log = map (λ entry. entry.action) log.entries

-- Where each entry has its position as its index, starts in the state that the entry before it left, and the
-- last one leaves the given state.
abbrev pub Chains : GameState → ℕ → List LogEntry → GameState → Type 0
Chains start i [] final = start ≡ final
Chains start i (entry ∷ rest) final =
    (entry.pre_state ≡ start) × (entry.index ≡ i) × Chains entry.post_state (i + 1) rest final

Chains-snoc :
    (start : GameState) (i k : ℕ) (entries : List LogEntry) (middle final : GameState)
    (action : Action)
    → k ≡ i + length entries
    → Chains start i entries middle
    → Chains start i
        (entries
          ++ record { index = k; action = action; pre_state = middle; post_state = final } ∷ [])
        final
Chains-snoc start i k [] middle final action at e = (sym e, omega arith, refl)
Chains-snoc start i k (entry ∷ rest) middle final action at (pre, index, h) =
    (pre, index, Chains-snoc entry.post_state (i + 1) k rest middle final action (omega arith) h)

actions-snoc :
    (entries : List LogEntry) (entry : LogEntry)
    → map (λ (e : LogEntry). e.action) (entries ++ entry ∷ [])
      ≡ map (λ (e : LogEntry). e.action) entries ++ entry.action ∷ []
actions-snoc [] entry = refl
actions-snoc (e ∷ entries) entry = ap (◌∷◌ e.action) (actions-snoc entries entry)

bind_ok : (r : Result Machine) → (r >>= λ m. ok m) ≡ r
bind_ok (ok m) = refl
bind_ok (err e) = refl

-- The calls of a chain that starts alike agree if they agree on what it starts with.
bind_agrees :
    {A : Type 0} (r : Result Machine) (f g : Machine → Result A)
    → ((m : Machine) → f m ≡ g m)
    → (r >>= f) ≡ (r >>= g)
bind_agrees (ok m) f g h = h m
bind_agrees (err e) f g h = refl

bind_bind :
    {A B : Type 0} (r : Result Machine) (f : Machine → Result A) (g : A → Result B)
    → ((r >>= f) >>= g) ≡ (r >>= λ m. f m >>= g)
bind_bind (ok m) f g = refl
bind_bind (err e) f g = refl

ok-bind :
    (r : Result Machine) (f : Machine → Engine) (n : Engine)
    → (r >>= λ m. ok (f m)) ≡ ok n
    → (m : Machine) × (r ≡ ok m) × (n ≡ f m)
ok-bind (ok m) f n h = (m, refl, cc)
ok-bind (err e) f n h = cc

ok_injective : {x y : Engine} → ok x ≡ ok y → x ≡ y
ok_injective h = cc

err_ne_ok : {e : Error} {y : Engine} → ◌≢◌ {A = Result Engine} (err e) (ok y)
err_ne_ok h = cc

module _ (shuffled : List ℕ → List (Option ℕ)) where
  -- The engines that accepted actions lead to.
  pub data Played (start : Engine) : Engine → Type 0 where
    created : Played start start
    acted :
        {e n : Engine} (action : Action)
        → Played start e
        → apply_logged shuffled action e ≡ ok n
        → Played start n

  abbrev pub logged_engine : Action → Engine → Machine → Engine
  logged_engine action e m = record e {
    machine = m;
    log = record_action action e.machine.state m.state e.log;
  }

  pub logged :
      (action : Action) (e n : Engine)
      → apply_logged shuffled action e ≡ ok n
      → (m : Machine) × (advance shuffled action e.machine ≡ ok m) × (n ≡ logged_engine action e m)
  unfolding apply_logged
  logged action e n h = ok-bind (advance shuffled action e.machine) (logged_engine action e) n h

  -- The machine alone under a list of actions.
  pub advance_each : List Action → Machine → Result Machine
  advance_each [] m = ok m
  advance_each (action ∷ rest) m = advance shuffled action m >>= advance_each rest

  advance_each-snoc :
      (actions : List Action) (action : Action) (m : Machine)
      → advance_each (actions ++ action ∷ []) m
        ≡ (advance_each actions m >>= advance shuffled action)
  unfolding advance_each
  advance_each-snoc [] action m = bind_ok (advance shuffled action m)
  advance_each-snoc (a ∷ actions) action m =
      bind_agrees (advance shuffled a m) _ _ (λ n. advance_each-snoc actions action n)
      ∙ sym (bind_bind (advance shuffled a m) (advance_each actions) (advance shuffled action))

  pub apply_each-advance_each :
      (actions : List Action) (e : Engine)
      → (apply_each shuffled actions e >>= λ r. ok r.machine.state)
        ≡ (advance_each actions e.machine >>= λ m. ok m.state)
  unfolding apply_each advance_each apply_logged
  apply_each-advance_each [] e = refl
  apply_each-advance_each (a ∷ actions) e =
      ap (λ r. r >>= λ (n : Engine). ok n.machine.state)
        (bind_bind (advance shuffled a e.machine) (λ m. ok (logged_engine a e m))
          (apply_each shuffled actions))
      ∙ bind_bind (advance shuffled a e.machine)
          (λ m. apply_each shuffled actions (logged_engine a e m)) (λ n. ok n.machine.state)
      ∙ bind_agrees (advance shuffled a e.machine) _ _
          (λ m. apply_each-advance_each actions (logged_engine a e m))
      ∙ sym (bind_bind (advance shuffled a e.machine) (advance_each actions) (λ m. ok m.state))

  abbrev entry_of : Action → Engine → Machine → LogEntry
  entry_of action e m = record {
    index = length e.log.entries;
    action = action;
    pre_state = e.machine.state;
    post_state = m.state;
  }

  -- What holds of every engine that was played from one with an empty log.
  pub Played-log :
      (start e : Engine)
      → start.log.entries ≡ []
      → Played start e
      → Chains start.machine.state 0 e.log.entries e.machine.state
        × (advance_each (actions_of e.log) start.machine ≡ ok e.machine)
  unfolding advance_each record_action
  Played-log start e empty created = rw empty (refl, refl)
  Played-log start n empty (acted {e} action play step) =
      let (chain, run) = Played-log start e empty play in
      let (m, moved, same) = logged action e n step in
      let steps : advance_each (actions_of (logged_engine action e m).log) start.machine ≡ ok m =
        ap (λ actions. advance_each actions start.machine)
          (actions-snoc e.log.entries (entry_of action e m))
        ∙ advance_each-snoc (actions_of e.log) action start.machine
        ∙ ap (λ r. r >>= advance shuffled action) run
        ∙ moved in
      let longer : Chains start.machine.state 0 (logged_engine action e m).log.entries m.state =
        Chains-snoc start.machine.state 0 (length e.log.entries) e.log.entries e.machine.state
          m.state action (omega arith) chain in
      subst
        (λ (k : Engine).
          Chains start.machine.state 0 k.log.entries k.machine.state
          × (advance_each (actions_of k.log) start.machine ≡ ok k.machine))
        (sym same) (longer, steps)

  -- A list of accepted actions is a way to play.
  pub apply_each-Played :
      (actions : List Action) (start e n : Engine)
      → Played start e
      → apply_each shuffled actions e ≡ ok n
      → Played start n
  unfolding apply_each
  apply_each-Played [] start e n play h = subst (Played start) (ok_injective h) play
  apply_each-Played (action ∷ actions) start e n play h =
      step (apply_logged shuffled action e) refl h
        λ k moved. apply_each-Played actions start k n (acted action play moved)
    where
      step :
          (r : Result Engine)
          → apply_logged shuffled action e ≡ r
          → (r >>= apply_each shuffled actions) ≡ ok n
          → ((k : Engine)
              → apply_logged shuffled action e ≡ ok k
              → apply_each shuffled actions k ≡ ok n
              → Played start n)
          → Played start n
      step (ok k) moved rest go = go k moved rest
      step (err e') moved rest go = elim (err_ne_ok rest) [ ]
