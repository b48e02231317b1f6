-- ===== src/Auth/Service.antt =====
-- `AuthService`. `bcrypt.compare` is the parameter `matches`, SHA-256 of a reset code `digest`; a hash that
-- `bcrypt.hash` makes, a new user's identifier, a random code and a new refresh token are arguments. E-mail
-- addresses and IP addresses are numbers in one space, as the counters of reset requests name both alike.
-- Analytics and metrics are left out.
use pokerhub.Prelude.{
  some, ltb, ◌++◌, ◌==◌, ℕ, ◌+◌, [], Bool, none, false, if◌then◌else◌, Option, ◌∷◌, find, true,
  update_first, List,
}
use pokerhub.Prelude.Assoc.{read_at, set_at, remove_at}
use pokerhub.Auth.Sessions.{
  Tokens, nothing, thrown, issue_tokens, expire_token, revoke, Answer, granted, revoke_all, rotate,
}

pub record User : Type 0 where
  pub id : ℕ
  pub email : ℕ
  pub password : Option ℕ
  pub admin : Bool

pub record Auth : Type 0 where
  pub users : List User
  pub tokens : Tokens
  pub revoked : List (ℕ × Bool)
  pub codes : List (ℕ × ℕ)
  pub requests : List (ℕ × ℕ)
  pub sent : List (ℕ × ℕ)

-- `users.findOne({ where: { email } })`
unfoldable pub find_user : ℕ → List User → Option User
find_user email = find (λ u. u.email == email)

-- `register(email, password)`; none is the conflict.
unfoldable pub register : ℕ → ℕ → ℕ → Auth → Auth × Option ℕ
unfolding find_user
register id email hash s = elim (find_user email s.users) [
  | some existing ↦ (s, none)
  | none ↦ (
    record s {
      users =
          s.users ++ record { id = id; email = email; password = some hash; admin = false } ∷ [];
    },
    some id,
  )
]

-- `incr` of a counter, and whether it is then over the limit
abbrev pub count_request : ℕ → Auth → Auth × ℕ
count_request key s =
    let n : ℕ = elim (read_at key s.requests) [ none ↦ 1 | some m ↦ m + 1 ] in
    (record s { requests = set_at key n s.requests }, n)

-- What can happen to accounts and sessions.
pub data Event : Type 0 where
  registers : ℕ → ℕ → ℕ → Event
  logs_in : ℕ → ℕ → ℕ → Event
  refreshes : ℕ → ℕ → Event
  logs_out : ℕ → Event
  asks_reset : ℕ → Option ℕ → ℕ → Event
  resets : ℕ → ℕ → ℕ → Event
  token_expires mark_expires code_expires counter_expires : ℕ → Event

module _ (configured : Bool) (matches : ℕ → ℕ → Bool) (digest : ℕ → ℕ) (request_limit : ℕ) where
  -- `validateUser(email, password)`
  unfoldable pub validate_user : ℕ → ℕ → List User → Option User
  unfolding find_user
  validate_user email password users = elim (find_user email users) [
    | none ↦ none
    | some u ↦ elim u.password [
      | none ↦ none
      | some hash ↦ if matches password hash then some u else none
    ]
  ]

  abbrev with_tokens : Auth → Tokens × Answer → Auth × Answer
  with_tokens s (tokens, a) = (record s { tokens = tokens }, a)

  -- `login(email, password)`
  unfoldable pub login : ℕ → ℕ → ℕ → Auth → Auth × Answer
  unfolding validate_user issue_tokens
  login email password fresh s = elim (validate_user email password s.users) [
    | none ↦ (s, nothing)
    | some u ↦ with_tokens s (issue_tokens configured u.id u.admin fresh s.tokens)
  ]

  -- The last part of `refresh`.
  unfoldable pub mark_rotated : ℕ → Auth × Answer → Auth × Answer
  mark_rotated token (s, granted g) =
      (record s { revoked = set_at token true s.revoked }, granted g)
  mark_rotated token (s, nothing) = (s, nothing)
  mark_rotated token (s, thrown) = (s, thrown)

  -- `refresh(token)`
  unfoldable pub refresh : ℕ → ℕ → Auth → Auth × Answer
  unfolding rotate mark_rotated read_at
  refresh token fresh s = elim (read_at token s.revoked) [
    | some _ ↦ (s, nothing)
    | none ↦ mark_rotated token (with_tokens s (rotate configured token fresh s.tokens))
  ]

  -- `logout(token)`
  unfoldable pub logout : ℕ → Auth → Auth
  unfolding remove_at
  logout token s = record s {
    revoked = set_at token true s.revoked;
    tokens = revoke token s.tokens;
  }

  -- A request that has passed the counters.
  abbrev send_code : ℕ → ℕ → Auth → Auth
  send_code email code s = record s {
    codes = set_at email (digest code) s.codes;
    sent = s.sent ++ (email, code) ∷ [];
  }

  -- `requestPasswordReset(email, ip)`
  unfoldable pub request_reset : ℕ → Option ℕ → ℕ → Auth → Auth
  unfolding find_user read_at
  request_reset email ip code s = elim (find_user email s.users) [
    | none ↦ s
    | some u ↦
        let (counted, n) = count_request email s in
        if ltb request_limit n then counted else elim ip [
          | none ↦ send_code email code counted
          | some address ↦
              let (twice, m) = count_request address counted in
              if ltb request_limit m then twice else send_code email code twice
        ]
  ]

  -- `verifyResetCode(email, code)`
  unfoldable pub verify_reset_code : ℕ → ℕ → Auth → Bool
  unfolding read_at
  verify_reset_code email code s = elim (read_at email s.codes) [
    | none ↦ false
    | some stored ↦ stored == digest code
  ]

  -- The end of `resetPassword`, for the user that it has found.
  unfoldable pub set_password : ℕ → ℕ → User → Auth → Auth
  unfolding revoke_all remove_at
  set_password email hash u s = record s {
    users = update_first (λ v. v.id == u.id) (λ v. record v { password = some hash }) s.users;
    tokens = revoke_all u.id s.tokens;
    codes = remove_at email s.codes;
  }

  -- `resetPassword(email, code, password)`
  unfoldable pub reset_password : ℕ → ℕ → ℕ → Auth → Auth × Bool
  unfolding verify_reset_code find_user set_password
  reset_password email code hash s =
      if verify_reset_code email code s
      then elim (find_user email s.users) [
        | none ↦ (s, false)
        | some u ↦ (set_password email hash u s, true)
      ]
      else (s, false)

  unfoldable pub happen : Event → Auth → Auth
  unfolding register login refresh logout request_reset reset_password remove_at
  happen (registers id email hash) s = (register id email hash s).0
  happen (logs_in email password fresh) s = (login email password fresh s).0
  happen (refreshes token fresh) s = (refresh token fresh s).0
  happen (logs_out token) s = logout token s
  happen (asks_reset email ip code) s = request_reset email ip code s
  happen (resets email code hash) s = (reset_password email code hash s).0
  happen (token_expires token) s = record s { tokens = expire_token token s.tokens }
  happen (mark_expires token) s = record s { revoked = remove_at token s.revoked }
  happen (code_expires email) s = record s { codes = remove_at email s.codes }
  happen (counter_expires key) s = record s { requests = remove_at key s.requests }

  unfoldable pub happen_all : List Event → Auth → Auth
  unfolding happen
  happen_all [] s = s
  happen_all (e ∷ events) s = happen_all events (happen e s)
