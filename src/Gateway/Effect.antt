-- ===== src/Gateway/Effect.antt =====
-- What each input does to the core of the gateway's state.
use pokerhub.Gateway.Types.{
  Settings, Notice, Wire, Snapshot, dealing_disabled, settlement_disabled, Gateway,
  engine_not_started, player_of, Incoming, refused, player_mismatch,
}
use pokerhub.Prelude.{
  Option-cases, Option, List, inr, ◌≡◌, ℕ, inl, false, Bool-cases, ◌∙◌, some, sym, subst, refl,
  true, none, ap,
}
use pokerhub.Prelude.Assoc.{set_at, read_at}
use pokerhub.Gateway.Flags.{settlement, dealing, Flags, is_off}
use pokerhub.Engine.Run.{Engine, apply_logged}
use pokerhub.Gateway.Calls.{trim_seen}
use pokerhub.Gateway.Handler.{
  play, refuse, is_seen, receive, admit, ask_engine, remember, is_mismatch, stop_turn, answer,
}
use pokerhub.Table.Types.{GameState, ok, Result, err}
use pokerhub.Gateway.Publish.{core-publish}
use pokerhub.Gateway.Core.{Core, core, engined, core-refuse, advanced, core-ack}

abbrev pub seen_of : Core → List (ℕ × ℕ)
seen_of (engines, states, cached, tick, cached_tick, ss, seen) = seen

abbrev pub engines_of : Core → List (ℕ × Engine)
engines_of (engines, states, cached, tick, cached_tick, ss, seen) = engines

abbrev pub with_seen : List (ℕ × ℕ) → Core → Core
with_seen seen (engines, states, cached, tick, cached_tick, ss, _) =
    (engines, states, cached, tick, cached_tick, ss, seen)

module _ (shuffled : ℕ → List ℕ → List (Option ℕ)) where
  -- The effects of an input at a time.
  pub data Effect (now : ℕ) (c : Core) : Core → Type 0 where
    quiet : Effect now c c
    noted :
        (hash : ℕ)
        → is_seen now hash (seen_of c) ≡ false
        → Effect now c (with_seen (set_at hash now (seen_of c)) c)
    applied :
        (hash : ℕ) (w : Wire) (e n : Engine) (ss : List Snapshot)
        → is_seen now hash (seen_of c) ≡ false
        → read_at w.table (engines_of c) ≡ some e
        → apply_logged (shuffled w.table) w.action e ≡ ok n
        → Effect now c (
            advanced w.table n.machine.state ss
              (engined w.table n (with_seen (set_at hash now (seen_of c)) c)))
    clocked :
        (table : ℕ) (state : GameState) (ss : List Snapshot)
        → Effect now c (advanced table state ss c)
    cleaned : Effect now c (with_seen (trim_seen now (seen_of c)) c)

  pub Effect-quiet : {now : ℕ} {c d : Core} → d ≡ c → Effect now c d
  Effect-quiet {now} {c} e = subst (Effect now c) (sym e) quiet

  module _ (digest : ℕ → ℕ) (settings : Settings) where
    module _ (now socket action_id hash : ℕ) (w : Wire) (g : Gateway) (c : Core)
        (same : core g ≡ with_seen (set_at hash now (seen_of c)) c)
        (unseen : is_seen now hash (seen_of c) ≡ false) where
      refuse-Effect :
          (notice : Notice) → Effect now c (core (refuse settings socket action_id notice g))
      refuse-Effect notice =
          subst (Effect now c) (sym (core-refuse settings socket action_id notice g ∙ same))
            (noted hash unseen)

      answer-Effect :
          (e : Engine)
          → read_at w.table (engines_of c) ≡ some e
          → (r : Result Engine) → apply_logged (shuffled w.table) w.action e ≡ r
          → Effect now c (core (answer shuffled digest settings now socket action_id w r g))
      unfolding answer
      answer-Effect e found (err x) h = refuse-Effect (refused x)
      answer-Effect e found (ok n) h =
          let (ss, new) = core-publish settings now socket action_id w n g in
          subst (Effect now c)
            (sym (new ∙ ap (λ d. advanced w.table n.machine.state ss (engined w.table n d)) same))
            (applied hash w e n ss unseen found h)

      ask_engine-Effect :
          (o : Option Engine)
          → read_at w.table (engines_of c) ≡ o
          → Effect now c (core (ask_engine shuffled digest settings now socket action_id w o g))
      unfolding ask_engine
      ask_engine-Effect none missing = refuse-Effect engine_not_started
      ask_engine-Effect (some e) found =
          answer-Effect e found (apply_logged (shuffled w.table) w.action e) refl

      play-Effect :
          (flags : Flags)
          → Effect now c (core (play shuffled digest settings flags now socket action_id w g))
      unfolding play
      play-Effect flags = elim (Bool-cases (is_off dealing w.table flags)) [
        | inl off ↦ rw off (refuse-Effect dealing_disabled)
        | inr on ↦ elim (Bool-cases (is_off settlement w.table flags)) [
          | inl halted ↦ rw on (rw halted (refuse-Effect settlement_disabled))
          | inr going ↦ rw on (
              rw going (
                ask_engine-Effect (read_at w.table g.engines)
                  (ap (λ d. read_at w.table (engines_of d)) (sym same))))
        ]
      ]

    core-stop_turn : (w : Wire) (g : Gateway) → core (stop_turn w g) ≡ core g
    unfolding stop_turn
    core-stop_turn w g = elim (Option-cases (player_of w.action)) [
      | inl nobody ↦ rw (nobody, stop_turn) refl
      | inr (p, someone) ↦ rw (someone, stop_turn) refl
    ]

    admit-Effect :
        (flags : Flags) (now socket action_id : ℕ) (w : Wire) (g : Gateway)
        → Effect now (core g) (core (admit shuffled digest settings flags now socket action_id w g))
    unfolding admit
    admit-Effect flags now socket action_id w g =
        elim (Bool-cases (is_seen now (digest action_id) g.seen)) [
          | inl old ↦ rw old (Effect-quiet (core-ack settings socket action_id true g))
          | inr unseen ↦ rw unseen (
              play-Effect now socket action_id (digest action_id) w
                (stop_turn w (remember now (digest action_id) g)) (core g)
                (core-stop_turn w (remember now (digest action_id) g)) unseen flags)
        ]

    pub receive-Effect :
        (flags : Flags) (now socket : ℕ) (m : Incoming) (g : Gateway)
        → Effect now (core g) (core (receive shuffled digest settings flags now socket m g))
    unfolding receive
    receive-Effect flags now socket m g = elim (Option-cases m.parsed) [
      | inl bad ↦ rw (bad, receive) (Effect-quiet (core-ack settings socket m.action_id false g))
      | inr (w, good) ↦
          elim (Bool-cases (is_mismatch (player_of w.action) (read_at socket g.sockets))) [
            | inl wrong ↦
                rw (good, receive)
                  (rw wrong
                    (Effect-quiet (core-refuse settings socket m.action_id player_mismatch g)))
            | inr right ↦
                rw (good, receive) (rw right (admit-Effect flags now socket m.action_id w g))
          ]
    ]
