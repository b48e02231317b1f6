-- ===== src/Gateway/Window.antt =====
-- Proofs about the rate limit between two expirations of the counters.
use pokerhub.Gateway.Limits.{is_rate_limited, counter_of, rate_key, count_message}
use pokerhub.Gateway.Types.{
  server_error, Gateway, Settings, Message, rate_limited, Client, or_number,
}
use pokerhub.Gateway.Outbound.{enqueue, waiting_of}
use pokerhub.Prelude.{
  Bool-cases, leb, false, inl, Bool, not, ◌∷◌, le_of_not_ltb, ◌+◌, ◌≤◌, ℕ, ◌&&◌, inr, ◌==◌, List,
  refl, length, ◌≡◌, [], ltb, true, ◌∙◌, ==-self, arith, ◌-◌, ap, eq_of_==, ◌⊎◌,
}
use pokerhub.Prelude.Count.{one_if}
use pokerhub.Prelude.Assoc.{set_at, read_at}

-- How many of the messages the limit lets through, of a key and of all.
unfoldable pub let_through : Settings → (ℕ → Bool) → List Client → Gateway → ℕ
let_through settings of_key [] g = 0
let_through settings of_key (c ∷ cs) g =
    one_if (of_key (rate_key c) && not (is_rate_limited settings c g).1)
    + let_through settings of_key cs (is_rate_limited settings c g).0

counters-enqueue :
    (settings : Settings) (socket : ℕ) (message : Message) (critical : Bool) (g : Gateway)
    → ((enqueue settings socket message critical g).counters ≡ g.counters)
      × ((enqueue settings socket message critical g).global_count ≡ g.global_count)
unfolding enqueue
counters-enqueue settings socket message critical g =
    elim (Bool-cases (leb settings.queue_limit (length (waiting_of socket g)))) [
      | inl full ↦ rw full (refl, refl)
      | inr room ↦ rw room (refl, refl)
    ]

-- What a message does to the counters, and what is known of them when it is let through.
IsCounted : Settings → Client → Gateway → Gateway × Bool → Type 0
IsCounted settings c g (h, limited) =
    (h.counters ≡ (count_message (rate_key c) g).counters)
    × (h.global_count ≡ g.global_count + 1)
    × (limited ≡ false
        → (g.global_count + 1 ≤ settings.global_limit)
          × (counter_of (rate_key c) (count_message (rate_key c) g) ≤ 30))

is_rate_limited-IsCounted :
    (settings : Settings) (c : Client) (g : Gateway)
    → IsCounted settings c g (is_rate_limited settings c g)
unfolding IsCounted is_rate_limited count_message
is_rate_limited-IsCounted settings c g =
    let counted = count_message (rate_key c) g in
    elim (Bool-cases (ltb settings.global_limit (g.global_count + 1))) [
      | inl much ↦
          let (same, all_same) =
            counters-enqueue settings c.id (server_error rate_limited) false counted in
          rw much (same, all_same, λ passed. absurd (cc passed))
      | inr less ↦ elim (Bool-cases (ltb 30 (counter_of (rate_key c) counted))) [
        | inl many ↦ rw less (rw many (refl, refl, λ passed. absurd (cc passed)))
        | inr few ↦
            rw less (rw few (refl, refl, λ passed. (le_of_not_ltb _ _ less, le_of_not_ltb _ _ few)))
      ]
    ]

-- The counter of a key after a message.
bumped :
    (key j : ℕ) (g : Gateway)
    → or_number (read_at key (set_at j (counter_of j g + 1) g.counters)) 0
      ≡ counter_of key g + one_if (j == key)
unfolding counter_of
bumped key j g = elim (Bool-cases (j == key)) [
  | inl own ↦ let e : j ≡ key = eq_of_== j key own in rw own (ap (λ k. counter_of k g + 1) e)
  | inr other ↦ rw other (omega arith)
]

counter-counted :
    (key : ℕ) (c : Client) (g h : Gateway)
    → h.counters ≡ (count_message (rate_key c) g).counters
    → counter_of key h ≡ counter_of key g + one_if (rate_key c == key)
unfolding counter_of count_message
counter-counted key c g h same =
    ap (λ m. or_number (read_at key m) 0) same ∙ bumped key (rate_key c) g

own_counter :
    (c : Client) (g : Gateway)
    → counter_of (rate_key c) (count_message (rate_key c) g) ≡ counter_of (rate_key c) g + 1
own_counter c g =
    counter-counted (rate_key c) c g (count_message (rate_key c) g) refl
    ∙ rw (==-self (rate_key c)) refl

not_counted : (b l : Bool) → l ≡ true → one_if (b && not l) ≡ 0
not_counted b l h = ground arith

is_counted : (b l : Bool) → l ≡ false → one_if (b && not l) ≡ one_if b
is_counted b l h = ground arith

let_through-cons :
    (settings : Settings) (p : ℕ → Bool) (c : Client) (cs : List Client) (g : Gateway)
    → let_through settings p (c ∷ cs) g
      ≡ one_if (p (rate_key c) && not (is_rate_limited settings c g).1)
        + let_through settings p cs (is_rate_limited settings c g).0
unfolding let_through
let_through-cons settings p c cs g = refl

let_through-nil :
    (settings : Settings) (p : ℕ → Bool) (g : Gateway) → let_through settings p [] g ≡ 0
unfolding let_through
let_through-nil settings p g = refl

-- The own counter is at most 30 when the message is let through.
few_of_key :
    (key : ℕ) (c : Client) (g : Gateway)
    → counter_of (rate_key c) (count_message (rate_key c) g) ≤ 30
    → one_if (rate_key c == key) + counter_of key g ≤ 30 ⊎ (one_if (rate_key c == key) ≡ 0)
few_of_key key c g few = elim (Bool-cases (rate_key c == key)) [
  | inl own ↦
      let e : rate_key c ≡ key = eq_of_== (rate_key c) key own in
      inl (rw own (omega (arith, few, own_counter c g, ap (λ k. counter_of k g) e)))
  | inr other ↦ inr (rw other refl)
]

-- As long as no counter expires, `isRateLimited` lets through at most 30 messages of a key and at most
-- `globalLimit` messages of all keys, less those that were counted before.
pub let_through-le :
    (settings : Settings) (key : ℕ) (cs : List Client) (g : Gateway)
    → (let_through settings (λ k. k == key) cs g ≤ 30 - counter_of key g)
      × (let_through settings (λ _. true) cs g ≤ settings.global_limit - g.global_count)
unfolding IsCounted
let_through-le settings key [] g = (
  omega (arith, let_through-nil settings (λ k. k == key) g),
  omega (arith, let_through-nil settings (λ _. true) g),
)
let_through-le settings key (c ∷ cs) g =
    let (h, limited) = is_rate_limited settings c g in
    let (same, all_same, bounds) = is_rate_limited-IsCounted settings c g in
    let (mine, ours) = let_through-le settings key cs h in
    let own_step = let_through-cons settings (λ k. k == key) c cs g in
    let all_step = let_through-cons settings (λ _. true) c cs g in
    let count : counter_of key h ≡ counter_of key g + one_if (rate_key c == key) =
      counter-counted key c g h same in
    elim (Bool-cases limited) [
      | inl refused_one ↦
          let own_none = not_counted (rate_key c == key) limited refused_one in
          let all_none = not_counted true limited refused_one in
          (
            omega (arith, mine, own_step, own_none, count),
            omega (arith, ours, all_step, all_none, all_same),
          )
      | inr passed ↦
          let (few_all, few) = bounds passed in
          let own_one = is_counted (rate_key c == key) limited passed in
          let all_one = is_counted true limited passed in
          (
            elim (few_of_key key c g few) [
              | inl room ↦ omega (arith, mine, own_step, own_one, count, room)
              | inr apart ↦ omega (arith, mine, own_step, own_one, count, apart)
            ],
            omega (arith, ours, all_step, all_one, all_same, few_all),
          )
    ]
