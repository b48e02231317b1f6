-- ===== src/Tests/Auth.antt =====
-- A user with two sessions.
use pokerhub.Prelude.{◌==◌, refl, false, none, ◌∷◌, some, true, [], arith, ℕ, Bool, ◌≡◌}
use pokerhub.Auth.Service.{
  mark_expires, logout, request_reset, logs_in, verify_reset_code, Auth, happen_all, refreshes,
  refresh, resets,
}
use pokerhub.Auth.Sessions.{plain_user, Tokens, nothing, replace_token, Answer, granted, Grant}
use pokerhub.Prelude.Assoc.{read_at}
use pokerhub.Auth.Ended.{closed, refresh_ended}

abbrev same_number : ℕ → ℕ → Bool
same_number a b = a == b

abbrev same_code : ℕ → ℕ
same_code code = code

abbrev site : Auth
site = record {
  users = record { id = 1; email = 10; password = some 77; admin = true } ∷ [];
  tokens = [];
  revoked = [];
  codes = [];
  requests = [];
  sent = [];
}

abbrev signed_in : Auth
signed_in =
    happen_all true same_number same_code 5 (logs_in 10 77 500 ∷ logs_in 10 77 501 ∷ []) site

abbrev second_grant : Grant
second_grant = record { user = 1; admin = true; refresh_token = 600 }

rotated_once : (refresh true same_number same_code 5 500 600 signed_in).1 ≡ granted second_grant
unfolding refresh happen_all
rotated_once = refl

refresh_ended_example :
    (refresh true same_number same_code 5 500 700 (
      happen_all true same_number same_code 5
        (logs_in 10 77 601 ∷ mark_expires 500 ∷ refreshes 501 602 ∷ [])
        (logout true same_number same_code 5 500 signed_in))).1
    ≡ nothing
refresh_ended_example =
    refresh_ended true same_number same_code 5 500 signed_in
      (logout true same_number same_code 5 500 signed_in) closed
      (logs_in 10 77 601 ∷ mark_expires 500 ∷ refreshes 501 602 ∷ [])
      ((λ e. omega (arith, e)), (tt, ((λ e. omega (arith, e)), tt))) 700

-- Two refreshes of a token that both read it before either deletes it: both get tokens.
abbrev held : Tokens
held = (500, plain_user 1) ∷ []

abbrev first_pair : Tokens × Answer
first_pair = replace_token true 500 (read_at 500 held) 800 held

abbrev second_pair : Tokens × Answer
second_pair = replace_token true 500 (read_at 500 held) 801 first_pair.0

abbrev grant_of : ℕ → Answer
grant_of token = granted (record { user = 1; admin = false; refresh_token = token })

abbrev answers : Answer × Answer
answers = (first_pair.1, second_pair.1)

both_rotated : answers ≡ (grant_of 800, grant_of 801)
unfolding replace_token read_at
both_rotated = refl

-- A code is still accepted after any number of wrong guesses.
abbrev asked : Auth
asked = request_reset true same_number same_code 5 10 none 123456 site

abbrev guessed : Bool
guessed =
    verify_reset_code true same_number same_code 5 10 123456
      (happen_all true same_number same_code 5 (resets 10 100000 7 ∷ resets 10 100001 7 ∷ []) asked)

guesses_not_counted : guessed ≡ true
unfolding happen_all request_reset verify_reset_code
guesses_not_counted = refl
