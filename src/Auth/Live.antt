-- ===== src/Auth/Live.antt =====
-- Proofs about tokens that are no longer there.
use pokerhub.Prelude.{
  filter, Option-cases, ◌≡◌, Bool, none, inr, ◌==◌, ℕ, Bool-cases, ◌∙◌, refl, [], eq_of_==, not,
  ◌≢◌, ==_of_ne, false, inl, ◌∷◌, true,
}
use pokerhub.Prelude.Assoc.{
  read-remove_self, read-set_other, read-remove_other, read_at, set_at, remove_at,
}
use pokerhub.Auth.Sessions.{
  revoke_all, RefreshValue, parse_refresh_value, Tokens, rotate, replace_token, issue_tokens,
  is_of_user,
}

-- No entry is stored under a token.
abbrev pub IsGone : ℕ → Tokens → Type 0
IsGone token tokens = read_at token tokens ≡ none

pub set-IsGone :
    (token fresh : ℕ) (value : RefreshValue) (tokens : Tokens)
    → fresh ≢ token
    → IsGone token tokens
    → IsGone token (set_at fresh value tokens)
set-IsGone token fresh value tokens apart gone =
    read-set_other token fresh value tokens (==_of_ne fresh token apart) ∙ gone

pub remove-IsGone :
    (token key : ℕ) (tokens : Tokens) → IsGone token tokens → IsGone token (remove_at key tokens)
remove-IsGone token key tokens gone = elim (Bool-cases (key == token)) [
  | inl same ↦ rw (eq_of_== key token same) (read-remove_self token tokens)
  | inr other ↦ read-remove_other token key tokens other ∙ gone
]

filter-IsGone :
    (keep : ℕ × RefreshValue → Bool) (token : ℕ) (tokens : Tokens)
    → IsGone token tokens
    → IsGone token (filter keep tokens)
unfolding read_at
filter-IsGone keep token [] gone = refl
filter-IsGone keep token ((key, value) ∷ tokens) gone = elim (Bool-cases (key == token)) [
  | inl same ↦ absurd (cc (rw same at gone))
  | inr other ↦
      let rest = filter-IsGone keep token tokens (rw other at gone) in
      elim (Bool-cases (keep (key, value))) [
        | inl kept ↦ rw kept (rw other rest)
        | inr dropped ↦ rw dropped rest
      ]
]

filter_out-IsGone :
    (keep : ℕ → Bool) (token : ℕ) (tokens : Tokens)
    → keep token ≡ false
    → IsGone token (filter (λ (e : ℕ × RefreshValue). keep e.0) tokens)
unfolding read_at
filter_out-IsGone keep token [] h = refl
filter_out-IsGone keep token ((key, value) ∷ tokens) h = elim (Bool-cases (key == token)) [
  | inl same ↦
      let dropped : keep key ≡ false = rw (eq_of_== key token same) h in
      rw dropped (filter_out-IsGone keep token tokens h)
  | inr other ↦ elim (Bool-cases (keep key)) [
    | inl kept ↦ rw kept (rw other (filter_out-IsGone keep token tokens h))
    | inr dropped ↦ rw dropped (filter_out-IsGone keep token tokens h)
  ]
]

pub revoke_all-IsGone :
    (user token : ℕ) (tokens : Tokens) → IsGone token tokens → IsGone token (revoke_all user tokens)
unfolding revoke_all
revoke_all-IsGone user token tokens gone = filter-IsGone _ token tokens gone

-- The tokens of the user are gone.
pub revoke_all-IsGone_own :
    (user token : ℕ) (tokens : Tokens)
    → is_of_user user (read_at token tokens) ≡ true
    → IsGone token (revoke_all user tokens)
unfolding revoke_all
revoke_all-IsGone_own user token tokens own =
    filter_out-IsGone (λ key. not (is_of_user user (read_at key tokens))) token tokens (rw own refl)

module _ (configured : Bool) where
  pub issue_tokens-IsGone :
      (user : ℕ) (admin : Bool) (fresh token : ℕ) (tokens : Tokens)
      → fresh ≢ token
      → IsGone token tokens
      → IsGone token (issue_tokens configured user admin fresh tokens).0
  unfolding issue_tokens
  issue_tokens-IsGone user admin fresh token tokens apart gone = elim (Bool-cases configured) [
    | inl yes_secret ↦ rw yes_secret (set-IsGone token fresh _ tokens apart gone)
    | inr no_secret ↦ rw no_secret gone
  ]

  pub rotate-IsGone :
      (key fresh token : ℕ) (tokens : Tokens)
      → fresh ≢ token
      → IsGone token tokens
      → IsGone token (rotate configured key fresh tokens).0
  unfolding rotate replace_token
  rotate-IsGone key fresh token tokens apart gone = elim (Option-cases (read_at key tokens)) [
    | inl missing ↦ rw missing gone
    | inr (value, found) ↦ rw found (
        issue_tokens-IsGone (parse_refresh_value value).0 (parse_refresh_value value).1 fresh token
          (remove_at key tokens) apart (remove-IsGone token key tokens gone))
  ]

  -- A token that is rotated is gone.
  pub rotate-IsGone_own :
      (token fresh : ℕ) (tokens : Tokens)
      → fresh ≢ token
      → IsGone token (rotate configured token fresh tokens).0
  unfolding rotate replace_token
  rotate-IsGone_own token fresh tokens apart = elim (Option-cases (read_at token tokens)) [
    | inl missing ↦ rw missing missing
    | inr (value, found) ↦ rw found (
        issue_tokens-IsGone (parse_refresh_value value).0 (parse_refresh_value value).1 fresh token
          (remove_at token tokens) apart (read-remove_self token tokens))
  ]
