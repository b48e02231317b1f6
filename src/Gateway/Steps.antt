-- ===== src/Gateway/Steps.antt =====
-- Proofs about each handler as one of the effects.
use pokerhub.Gateway.Effect.{
  noted, clocked, cleaned, Effect, with_seen, seen_of, Effect-quiet, receive-Effect,
}
use pokerhub.Gateway.Handler.{receive, is_seen, handle_action, set_timer}
use pokerhub.Prelude.{
  ap, sym, Bool, true, inl, ◌≡◌, Option, subst, List, false, ℕ, Option-cases, ◌∙◌, refl, inr,
  Bool-cases,
}
use pokerhub.Gateway.Core.{
  core-is_rate_limited, core, core-retry_frame, core-send_next, core-enqueue,
}
use pokerhub.Gateway.Calls.{
  disconnected, timed_out, acked, claimed_player, all_expired, expired, handle_call, connect,
  sending, Input, acknowledge, disconnect, act, trim_action_hashes, connected, prove, ask,
  trim_seen, step, retried, trimmed, handle_proof,
}
use pokerhub.Gateway.Types.{
  Gateway, Settings, proof_unavailable, server_error, call_ack, Client, Call, proof_message,
  Incoming,
}
use pokerhub.Prelude.Assoc.{set_at}
use pokerhub.Gateway.Outbound.{ack_frame}
use pokerhub.Gateway.Publish.{core-time_out}
use pokerhub.Gateway.Flags.{Flags}
use pokerhub.Gateway.Limits.{is_rate_limited}

-- The time of an input, where its handler reads the clock.
abbrev pub time_of : Input → ℕ
time_of (act flags now c m) = now
time_of (ask now c event action_id) = now
time_of (trimmed now) = now
time_of _ = 0

module _ (shuffled : ℕ → List ℕ → List (Option ℕ)) (digest : ℕ → ℕ) (settings : Settings) where
  handle_action-Effect :
      (flags : Flags) (now : ℕ) (c : Client) (m : Incoming) (g : Gateway)
      → Effect shuffled now (core g) (core (handle_action shuffled digest settings flags now c m g))
  unfolding handle_action
  handle_action-Effect flags now c m g =
      let counted = (is_rate_limited settings c g).0 in
      let same : core counted ≡ core g = core-is_rate_limited settings c g in
      elim (Bool-cases (is_rate_limited settings c g).1) [
        | inl limited ↦ rw limited (Effect-quiet shuffled same)
        | inr passed ↦ rw passed (
            subst
              (λ d.
                Effect shuffled now d
                  (core (receive shuffled digest settings flags now c.id m counted)))
              same (receive-Effect shuffled digest settings flags now c.id m counted))
      ]

  acknowledge-Effect :
      (now socket : ℕ) (event : Call) (action_id : ℕ) (g : Gateway)
      → Effect shuffled now
          (core g)
          (core (acknowledge shuffled digest settings now socket event action_id g))
  unfolding acknowledge
  acknowledge-Effect now socket event action_id g =
      elim (Bool-cases (is_seen now (digest action_id) g.seen)) [
        | inl old ↦ rw old (
            Effect-quiet shuffled
              (core-enqueue settings socket (call_ack event action_id true) false g))
        | inr unseen ↦ rw unseen (
            subst (Effect shuffled now (core g))
              (sym (
                ap (λ d. with_seen (set_at (digest action_id) now (seen_of d)) d)
                  (core-enqueue settings socket (call_ack event action_id false) false g)))
              (noted (digest action_id) unseen))
      ]

  handle_call-Effect :
      (now : ℕ) (c : Client) (event : Call) (action_id : ℕ) (g : Gateway)
      → Effect shuffled now
          (core g)
          (core (handle_call shuffled digest settings now c event action_id g))
  unfolding handle_call
  handle_call-Effect now c event action_id g =
      let counted = (is_rate_limited settings c g).0 in
      let same : core counted ≡ core g = core-is_rate_limited settings c g in
      elim (Bool-cases (is_rate_limited settings c g).1) [
        | inl limited ↦ rw limited (Effect-quiet shuffled same)
        | inr passed ↦ rw passed (
            subst
              (λ d.
                Effect shuffled now d
                  (core (acknowledge shuffled digest settings now c.id event action_id counted)))
              same (acknowledge-Effect now c.id event action_id counted))
      ]

  core-handle_proof :
      (ready : ℕ → Bool) (c : Client) (hand : ℕ) (g : Gateway)
      → core (handle_proof shuffled digest settings ready c hand g) ≡ core g
  unfolding handle_proof
  core-handle_proof ready c hand g =
      let counted = (is_rate_limited settings c g).0 in
      let same : core counted ≡ core g = core-is_rate_limited settings c g in
      elim (Bool-cases (is_rate_limited settings c g).1) [
        | inl limited ↦ rw limited same
        | inr passed ↦ elim (Bool-cases (ready hand)) [
          | inl shown ↦
              rw passed
                (rw shown (core-enqueue settings c.id (proof_message hand) true counted ∙ same))
          | inr hidden ↦ rw passed (
              rw hidden
                (core-enqueue settings c.id (server_error proof_unavailable) false counted ∙ same))
        ]
      ]

  core-connect :
      (now : ℕ) (c : Client) (g : Gateway)
      → core (connect shuffled digest settings now c g) ≡ core g
  unfolding connect set_timer
  core-connect now c g = elim (Option-cases (claimed_player c)) [
    | inl nobody ↦ rw (nobody, connect) refl
    | inr (p, someone) ↦ rw (someone, connect) refl
  ]

  -- Every input has one of the effects.
  pub step-Effect :
      (i : Input) (g : Gateway)
      → Effect shuffled (time_of i) (core g) (core (step shuffled digest settings i g))
  unfolding step disconnect ack_frame trim_action_hashes trim_seen
  step-Effect (act flags now c m) g = handle_action-Effect flags now c m g
  step-Effect (ask now c event action_id) g = handle_call-Effect now c event action_id g
  step-Effect (prove ready c hand) g = Effect-quiet shuffled (core-handle_proof ready c hand g)
  step-Effect (connected now c) g = Effect-quiet shuffled (core-connect now c g)
  step-Effect (disconnected socket) g = Effect-quiet shuffled refl
  step-Effect (acked socket frame_id) g = Effect-quiet shuffled refl
  step-Effect (retried socket frame_id) g =
      Effect-quiet shuffled (core-retry_frame socket frame_id g)
  step-Effect (sending socket frame_id) g = Effect-quiet shuffled (core-send_next socket frame_id g)
  step-Effect (timed_out table state) g =
      let (ss, same) = core-time_out table state g in
      subst (Effect shuffled 0 (core g)) (sym same) (clocked table state ss)
  step-Effect (trimmed now) g = cleaned
  step-Effect (expired key) g = Effect-quiet shuffled refl
  step-Effect all_expired g = Effect-quiet shuffled refl
