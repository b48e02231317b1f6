-- ===== src/Auth/Ended.antt =====
-- Proofs about sessions that have ended.
use pokerhub.Auth.Service.{
  find_user, set_password, resets, Event, refresh, mark_rotated, request_reset, mark_expires,
  happen, validate_user, register, registers, code_expires, happen_all, token_expires, refreshes,
  verify_reset_code, Auth, reset_password, logout, logs_in, counter_expires, asks_reset, login,
  logs_out, User, count_request,
}
use pokerhub.Prelude.{
  ◌≢◌, Bool-cases, List, refl, ◌≡◌, ℕ, [], Option-cases, Bool, inr, inl, ◌∷◌, Option, ltb, true,
}
use pokerhub.Auth.Sessions.{
  replace_token, Answer, nothing, rotate, Grant, granted, thrown, is_of_user,
}
use pokerhub.Auth.Live.{
  remove-IsGone, rotate-IsGone, issue_tokens-IsGone, IsGone, revoke_all-IsGone, rotate-IsGone_own,
  revoke_all-IsGone_own,
}
use pokerhub.Prelude.Assoc.{read_at, read-remove_self}
use pokerhub.Prelude.All.{All}

-- An event that does not hand out the token again: `randomUUID()` returns another one.
abbrev pub IsFreshOf : ℕ → Event → Type 0
IsFreshOf token (logs_in email password fresh) = fresh ≢ token
IsFreshOf token (refreshes used fresh) = fresh ≢ token
IsFreshOf token _ = Unit

module _ (configured : Bool) (matches : ℕ → ℕ → Bool) (digest : ℕ → ℕ) (request_limit : ℕ) where
  mark_rotated-tokens :
      (token : ℕ) (r : Auth × Answer)
      → (mark_rotated configured matches digest request_limit token r).0.tokens ≡ r.0.tokens
  unfolding mark_rotated
  mark_rotated-tokens token (s, granted g) = refl
  mark_rotated-tokens token (s, nothing) = refl
  mark_rotated-tokens token (s, thrown) = refl

  -- A refresh keeps other tokens gone, and its own is gone after it when it was not refused at once.
  refresh-IsGone :
      (key fresh token : ℕ) (s : Auth)
      → fresh ≢ token
      → IsGone token s.tokens
      → IsGone token (refresh configured matches digest request_limit key fresh s).0.tokens
  unfolding refresh
  refresh-IsGone key fresh token s apart gone = elim (Option-cases (read_at key s.revoked)) [
    | inl unmarked ↦
        rw (unmarked, refresh)
          (rw (mark_rotated-tokens key _)
            (rotate-IsGone configured key fresh token s.tokens apart gone))
    | inr (mark, marked) ↦ rw (marked, refresh) gone
  ]

  login-IsGone :
      (email password fresh token : ℕ) (s : Auth)
      → fresh ≢ token
      → IsGone token s.tokens
      → IsGone token (login configured matches digest request_limit email password fresh s).0.tokens
  unfolding login
  login-IsGone email password fresh token s apart gone =
      elim (Option-cases
        (validate_user configured matches digest request_limit email password s.users)) [
          | inl wrong ↦ rw (wrong, login) gone
          | inr (u, right) ↦
              rw (right, login)
                (issue_tokens-IsGone configured u.id u.admin fresh token s.tokens apart gone)
        ]

  register-tokens : (id email hash : ℕ) (s : Auth) → (register id email hash s).0.tokens ≡ s.tokens
  unfolding register
  register-tokens id email hash s = elim (Option-cases (find_user email s.users)) [
    | inl new ↦ rw (new, register) refl
    | inr (u, taken) ↦ rw (taken, register) refl
  ]

  request_reset-tokens :
      (email : ℕ) (ip : Option ℕ) (code : ℕ) (s : Auth)
      → (request_reset configured matches digest request_limit email ip code s).tokens ≡ s.tokens
  unfolding request_reset
  request_reset-tokens email ip code s = elim (Option-cases (find_user email s.users)) [
    | inl nobody ↦ rw (nobody, request_reset) refl
    | inr (u, found) ↦
        let (counted, n) = count_request email s in
        elim (Bool-cases (ltb request_limit n)) [
          | inl often ↦ rw (found, request_reset) (rw often refl)
          | inr seldom ↦ elim (Option-cases ip) [
            | inl unknown ↦ rw (found, request_reset) (rw seldom (rw unknown refl))
            | inr (address, known) ↦
                elim (Bool-cases (ltb request_limit (count_request address counted).1)) [
                  | inl much ↦ rw (found, request_reset) (rw seldom (rw known (rw much refl)))
                  | inr few ↦ rw (found, request_reset) (rw seldom (rw known (rw few refl)))
                ]
          ]
        ]
  ]

  reset_password-IsGone :
      (email code hash token : ℕ) (s : Auth)
      → IsGone token s.tokens
      → IsGone token
          (reset_password configured matches digest request_limit email code hash s).0.tokens
  unfolding reset_password set_password
  reset_password-IsGone email code hash token s gone =
      elim (Bool-cases (verify_reset_code configured matches digest request_limit email code s)) [
        | inr wrong ↦ rw wrong gone
        | inl right ↦ elim (Option-cases (find_user email s.users)) [
          | inl nobody ↦ rw right (rw nobody gone)
          | inr (u, found) ↦ rw right (rw found (revoke_all-IsGone u.id token s.tokens gone))
        ]
      ]

  happen-IsGone :
      (token : ℕ) (e : Event) (s : Auth)
      → IsFreshOf token e
      → IsGone token s.tokens
      → IsGone token (happen configured matches digest request_limit e s).tokens
  unfolding happen logout
  happen-IsGone token (registers id email hash) s h gone = rw (register-tokens id email hash s) gone
  happen-IsGone token (logs_in email password fresh) s h gone =
      login-IsGone email password fresh token s h gone
  happen-IsGone token (refreshes used fresh) s h gone = refresh-IsGone used fresh token s h gone
  happen-IsGone token (logs_out used) s h gone = remove-IsGone token used s.tokens gone
  happen-IsGone token (asks_reset email ip code) s h gone =
      rw (request_reset-tokens email ip code s) gone
  happen-IsGone token (resets email code hash) s h gone =
      reset_password-IsGone email code hash token s gone
  happen-IsGone token (token_expires used) s h gone = remove-IsGone token used s.tokens gone
  happen-IsGone token (mark_expires used) s h gone = gone
  happen-IsGone token (code_expires email) s h gone = gone
  happen-IsGone token (counter_expires key) s h gone = gone

  happen_all-IsGone :
      (token : ℕ) (events : List Event) (s : Auth)
      → All (IsFreshOf token) events
      → IsGone token s.tokens
      → IsGone token (happen_all configured matches digest request_limit events s).tokens
  unfolding happen_all
  happen_all-IsGone token [] s h gone = gone
  happen_all-IsGone token (e ∷ events) s h gone =
      happen_all-IsGone token events (happen configured matches digest request_limit e s) h.1
        (happen-IsGone token e s h.0 gone)

  -- A token that is gone is not accepted.
  gone_refused :
      (token fresh : ℕ) (s : Auth)
      → IsGone token s.tokens
      → (refresh configured matches digest request_limit token fresh s).1 ≡ nothing
  unfolding refresh rotate replace_token mark_rotated
  gone_refused token fresh s gone = elim (Option-cases (read_at token s.revoked)) [
    | inl unmarked ↦ rw (unmarked, refresh) (rw (gone, rotate) refl)
    | inr (mark, marked) ↦ rw (marked, refresh) refl
  ]

  refresh-IsGone_own :
      (token fresh : ℕ) (s : Auth) (g : Grant)
      → fresh ≢ token
      → (refresh configured matches digest request_limit token fresh s).1 ≡ granted g
      → IsGone token (refresh configured matches digest request_limit token fresh s).0.tokens
  unfolding refresh
  refresh-IsGone_own token fresh s g apart h = elim (Option-cases (read_at token s.revoked)) [
    | inl unmarked ↦
        rw (unmarked, refresh)
          (rw (mark_rotated-tokens token _)
            (rotate-IsGone_own configured token fresh s.tokens apart))
    | inr (mark, marked) ↦
        let answered : (refresh configured matches digest request_limit token fresh s).1 ≡ nothing =
          rw (marked, refresh) refl in
        absurd (cc (h, answered))
  ]

  -- How a session ends: its token is refreshed, logged out, or its user's password is reset.
  pub data Ends (token : ℕ) (s : Auth) : Auth → Type 0 where
    rotated :
        (fresh : ℕ) (g : Grant)
        → fresh ≢ token
        → (refresh configured matches digest request_limit token fresh s).1 ≡ granted g
        → Ends token s (refresh configured matches digest request_limit token fresh s).0
    closed : Ends token s (logout configured matches digest request_limit token s)
    was_reset :
        (email hash : ℕ) (u : User)
        → is_of_user u.id (read_at token s.tokens) ≡ true
        → Ends token s (set_password configured matches digest request_limit email hash u s)

  Ends-IsGone : (token : ℕ) (s after : Auth) → Ends token s after → IsGone token after.tokens
  unfolding logout set_password
  Ends-IsGone token s after (rotated fresh g apart h) = refresh-IsGone_own token fresh s g apart h
  Ends-IsGone token s after closed = read-remove_self token s.tokens
  Ends-IsGone token s after (was_reset email hash u own) =
      revoke_all-IsGone_own u.id token s.tokens own

  -- A refresh token is not accepted any more once it has been refreshed or logged out, or once `resetPassword`
  -- has set its user's password: whatever happens after that, `refresh` returns null, as long as no new token
  -- happens to be the same.
  pub refresh_ended :
      (token : ℕ) (s after : Auth)
      → Ends token s after
      → (events : List Event) → All (IsFreshOf token) events
      → (fresh : ℕ)
      → (refresh configured matches digest request_limit token fresh
          (happen_all configured matches digest request_limit events after)).1
        ≡ nothing
  refresh_ended token s after ended events fresh_ones fresh =
      gone_refused token fresh (happen_all configured matches digest request_limit events after)
        (happen_all-IsGone token events after fresh_ones (Ends-IsGone token s after ended))
