-- ===== src/HandRank/Score.antt =====
-- Proofs about `score` within one category, kicker by kicker.
use pokerhub.Prelude.{
  suc, List, inr, ◌∷◌, ◌*◌, ◌≤◌, zero, ℕ, length, ◌≡◌, arith, ◌<◌, [], ◌⊎◌, inl, ◌+◌,
}
use pokerhub.HandRank.{base, HandValue, score, rank_number, score_from}
use pokerhub.Prelude.All.{All}

-- The first difference decides.
abbrev pub LexLess : List ℕ → List ℕ → Type 0
LexLess [] ls = ⊥
LexLess (k ∷ ks) [] = ⊥
LexLess (k ∷ ks) (l ∷ ls) = (k < l) ⊎ ((k ≡ l) × LexLess ks ls)

abbrev pub BelowBase : List ℕ → Type 0
BelowBase = All (λ k. k < base)

score_from-lt :
    (s t : ℕ) (ks ls : List ℕ)
    → s < t
    → length ks ≡ length ls
    → BelowBase ks
    → score_from s ks < score_from t ls
unfolding score_from
score_from-lt s t [] [] h e b = h
score_from-lt s t [] (l ∷ ls) h e b = absurd (omega arith)
score_from-lt s t (k ∷ ks) [] h e b = absurd (omega arith)
score_from-lt s t (k ∷ ks) (l ∷ ls) h e b =
    score_from-lt (s * base + k) (t * base + l) ks ls (omega (arith, b.0)) (omega arith) b.1

score_from-LexLess :
    (s : ℕ) (ks ls : List ℕ)
    → length ks ≡ length ls
    → BelowBase ks
    → LexLess ks ls
    → score_from s ks < score_from s ls
unfolding score_from
score_from-LexLess s [] ls e b h = absurd h
score_from-LexLess s (k ∷ ks) [] e b h = absurd h
score_from-LexLess s (k ∷ ks) (l ∷ ls) e b (inl less) =
    score_from-lt (s * base + k) (s * base + l) ks ls (omega arith) (omega arith) b.1
score_from-LexLess s (k ∷ ks) (l ∷ ls) e b (inr (same, less)) =
    rw same (score_from-LexLess (s * base + l) ks ls (omega arith) b.1 less)

-- Of two values of one category with equally many kickers, all below the base, the one whose kickers
-- are smaller at the first difference has the smaller score.
pub score-LexLess :
    (v w : HandValue)
    → v.rank ≡ w.rank
    → length v.kickers ≡ length w.kickers
    → BelowBase v.kickers
    → LexLess v.kickers w.kickers
    → score v < score w
unfolding score
score-LexLess v w e len b h =
    rw e (score_from-LexLess (rank_number w.rank) v.kickers w.kickers len b h)

-- Scores of at most `n` kickers that are at most 12 lie at or below this one.
unfoldable pub top_score : ℕ → ℕ → ℕ
top_score s zero = s
top_score s (suc n) = top_score (s * base + 12) n

top_score_mono : (s t n : ℕ) → s ≤ t → top_score s n ≤ top_score t n
unfolding top_score
top_score_mono s t zero h = h
top_score_mono s t (suc n) h = top_score_mono (s * base + 12) (t * base + 12) n (omega arith)

le-top_score : (s n : ℕ) → s ≤ top_score s n
unfolding top_score
le-top_score s zero = omega arith
le-top_score s (suc n) = omega (arith, le-top_score (s * base + 12) n)

pub score_from-le :
    (s n : ℕ) (ks : List ℕ) → length ks ≤ n → All (λ k. k ≤ 12) ks → score_from s ks ≤ top_score s n
unfolding score_from top_score
score_from-le s n [] h b = le-top_score s n
score_from-le s zero (k ∷ ks) h b = absurd (omega arith)
score_from-le s (suc n) (k ∷ ks) h b = omega (
  arith,
  score_from-le (s * base + k) n ks (omega arith) b.1,
  top_score_mono (s * base + k) (s * base + 12) n (omega (arith, b.0)),
)
