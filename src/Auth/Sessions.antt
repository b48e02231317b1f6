-- ===== src/Auth/Sessions.antt =====
-- `SessionService`. Users, tokens and what is stored under a token are numbers or small records; a refresh token
-- is the `randomUUID()` that a call is given, and an access token stands for the claims that it signs. Whether
-- secrets are configured is the parameter `configured`. That Redis lets a token expire is a step `expire_token`.
use pokerhub.Prelude.{
  Option, none, false, filter, ◌==◌, some, true, ℕ, List, not, if◌then◌else◌, Bool,
}
use pokerhub.Prelude.Assoc.{remove_at, read_at, set_at}

-- The value under a refresh token: a user's identifier, or an object with the role 'admin'.
pub data RefreshValue : Type 0 where
  plain_user : ℕ → RefreshValue
  admin_user : ℕ → RefreshValue

-- `parseRefreshValue(value)` of a value that is there: the user, and whether the role is 'admin'.
unfoldable pub parse_refresh_value : RefreshValue → ℕ × Bool
parse_refresh_value (plain_user u) = (u, false)
parse_refresh_value (admin_user u) = (u, true)

-- The claims of an access token and the refresh token with it.
pub record Grant : Type 0 where
  pub user : ℕ
  pub admin : Bool
  pub refresh_token : ℕ

-- A call returns tokens, returns null, or throws.
pub data Answer : Type 0 where
  granted : Grant → Answer
  nothing thrown : Answer

abbrev pub Tokens : Type 0
Tokens = List (ℕ × RefreshValue)

module _ (configured : Bool) where
  -- `issueTokens(user, { role })`
  unfoldable pub issue_tokens : ℕ → Bool → ℕ → Tokens → Tokens × Answer
  issue_tokens user admin fresh tokens =
      if configured
      then (
        set_at fresh (if admin then admin_user user else plain_user user) tokens,
        granted (record { user = user; admin = admin; refresh_token = fresh }),
      )
      else (tokens, thrown)

  -- What `rotate` does with what it has read under the token.
  unfoldable pub replace_token : ℕ → Option RefreshValue → ℕ → Tokens → Tokens × Answer
  unfolding issue_tokens remove_at parse_refresh_value
  replace_token token none fresh tokens = (tokens, nothing)
  replace_token token (some value) fresh tokens =
      let (user, admin) = parse_refresh_value value in
      issue_tokens user admin fresh (remove_at token tokens)

  -- `rotate(token)`
  unfoldable pub rotate : ℕ → ℕ → Tokens → Tokens × Answer
  unfolding replace_token read_at
  rotate token fresh tokens = replace_token token (read_at token tokens) fresh tokens

-- `revoke(token)`
abbrev pub revoke : ℕ → Tokens → Tokens
revoke token tokens = remove_at token tokens

abbrev pub is_of_user : ℕ → Option RefreshValue → Bool
is_of_user user none = false
is_of_user user (some value) = (parse_refresh_value value).0 == user

-- `revokeAll(user)`
unfoldable pub revoke_all : ℕ → Tokens → Tokens
unfolding read_at parse_refresh_value
revoke_all user tokens = filter (λ e. not (is_of_user user (read_at e.0 tokens))) tokens

-- Redis lets a refresh token expire.
abbrev pub expire_token : ℕ → Tokens → Tokens
expire_token token tokens = remove_at token tokens
