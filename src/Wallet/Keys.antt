-- ===== src/Wallet/Keys.antt =====
-- Proofs about the idempotency keys of requests.
use pokerhub.Wallet.Desk.{
  request, running, open_request, duplicate, granted, lock, Desk, refused, read_slot, Replied,
  resumed, answered, clear_slot, RequestError, answer, Slot, set_slots, finish_request, Opened,
  expire_slot, Reply,
}
use pokerhub.Prelude.{
  none, false, refl, some, ◌≡◌, ℕ, Option-cases, [], List, Bool-cases, ◌≢◌, ◌==◌, sym, inl, ap,
  ==-self, ◌∷◌, inr, ◌∙◌, eq_of_==,
}

granted_injective : {q r : ℕ} → granted q ≡ granted r → q ≡ r
granted_injective h = cc

refused_ne_granted : {e : RequestError} {r : ℕ} → refused e ≢ granted r
refused_ne_granted h = cc

read_slot-cleared :
    (key : ℕ) (slots : List (ℕ × Slot)) → read_slot key (clear_slot key slots) ≡ none
unfolding read_slot
read_slot-cleared key [] = refl
read_slot-cleared key ((j, s) ∷ slots) = elim (Bool-cases (j == key)) [
  | inl hit ↦ rw hit (read_slot-cleared key slots)
  | inr miss ↦ rw miss (rw miss (read_slot-cleared key slots))
]

-- The outcomes of the statements before the body.
open_free :
    (key : ℕ) (d : Desk)
    → read_slot key d.slots ≡ none
    → open_request key d ≡ (set_slots d ((key, lock) ∷ d.slots), running)
unfolding open_request
open_free key d h = rw (h, open_request)

open_locked :
    (key : ℕ) (d : Desk)
    → read_slot key d.slots ≡ some lock
    → open_request key d ≡ (set_slots d (clear_slot key d.slots), duplicate)
unfolding open_request
open_locked key d h = rw (h, open_request)

open_answered :
    (key r : ℕ) (d : Desk)
    → read_slot key d.slots ≡ some (answer r)
    → open_request key d ≡ (d, answered r)
unfolding open_request
open_answered key r d h = rw (h, open_request)

-- A second request under a key whose first request still runs is refused, and takes the lock away: a third
-- one runs while the first does.
pub duplicate_unlocks :
    (key : ℕ) (d : Desk)
    → read_slot key d.slots ≡ some lock
    → ((open_request key d).1 ≡ duplicate) × ((open_request key (open_request key d).0).1 ≡ running)
duplicate_unlocks key d h = rw (open_locked key d h) (
  refl,
  ap (λ (r : Desk × Opened). r.1)
      (open_free key (set_slots d (clear_slot key d.slots)) (read_slot-cleared key d.slots)),
)

finish-answer :
    (key : ℕ) (p : Replied) (n : Desk) (r : ℕ)
    → finish_request key p ≡ (n, granted r)
    → read_slot key n.slots ≡ some (answer r)
unfolding finish_request read_slot
finish-answer key (d, granted q) n r h =
    let same : set_slots d ((key, answer q) ∷ clear_slot key d.slots) ≡ n =
      ap (λ (x : Replied). x.0) h in
    let reply : granted q ≡ granted r = ap (λ (x : Replied). x.1) h in
    rw (← same) (rw (==-self key) (ap (λ k. some (answer k)) (granted_injective reply)))
finish-answer key (d, refused e) n r h = elim (refused_ne_granted (ap (λ (x : Replied). x.1) h)) [ ]

-- What a granted request leaves under its key.
request-answer :
    (key : ℕ) (body : Desk → Replied) (d n : Desk) (r : ℕ)
    → request (some key) body d ≡ (n, granted r)
    → read_slot key n.slots ≡ some (answer r)
unfolding request
request-answer key body d n r h = elim (Option-cases (read_slot key d.slots)) [
  | inl free ↦
      finish-answer key (body (set_slots d ((key, lock) ∷ d.slots))) n r
        (sym (ap (λ o. resumed key body o) (open_free key d free)) ∙ h)
  | inr (lock, held) ↦
      elim (refused_ne_granted (
        ap (λ (x : Replied). x.1)
          (sym (ap (λ o. resumed key body o) (open_locked key d held)) ∙ h))) [ ]
  | inr (answer q, held) ↦
      let seen : (d, granted q) ≡ (n, granted r) =
        sym (ap (λ o. resumed key body o) (open_answered key q d held)) ∙ h in
      let same : d ≡ n = ap (λ (x : Replied). x.0) seen in
      let reply : granted q ≡ granted r = ap (λ (x : Replied). x.1) seen in
      rw (← same) (held ∙ ap (λ k. some (answer k)) (granted_injective reply))
]

-- What can happen while a key lives and no other request runs under it: requests start, under this key or
-- another, end and expire under others, and whatever leaves the keys alone.
pub data Meanwhile (key : ℕ) (d : Desk) : Desk → Type 0 where
  at_once : Meanwhile key d d
  opens : {n : Desk} (other : ℕ) → Meanwhile key d n → Meanwhile key d (open_request other n).0
  works : {n m : Desk} → Meanwhile key d n → m.slots ≡ n.slots → Meanwhile key d m
  finishes :
      {n : Desk} (other : ℕ) (reply : Reply)
      → (other == key) ≡ false
      → Meanwhile key d n
      → Meanwhile key d (finish_request other (n, reply)).0
  expires :
      {n : Desk} (other : ℕ)
      → (other == key) ≡ false
      → Meanwhile key d n
      → Meanwhile key d (expire_slot other n)

read_slot-cleared_other :
    (key other : ℕ) (slots : List (ℕ × Slot))
    → (other == key) ≡ false
    → read_slot key (clear_slot other slots) ≡ read_slot key slots
unfolding read_slot
read_slot-cleared_other key other [] apart = refl
read_slot-cleared_other key other ((j, s) ∷ slots) apart =
    let rest = read_slot-cleared_other key other slots apart in
    elim (Bool-cases (j == other)) [
      | inl hit ↦
          let miss : (j == key) ≡ false = rw (eq_of_== j other hit) apart in rw hit (rw miss rest)
      | inr miss ↦ elim (Bool-cases (j == key)) [
        | inl own ↦ rw miss (rw own refl)
        | inr lost ↦ rw miss (rw lost rest)
      ]
    ]

-- A key under which there is an answer is the same after a request starts.
open-read_slot :
    (key other r : ℕ) (d : Desk)
    → read_slot key d.slots ≡ some (answer r)
    → read_slot key (open_request other d).0.slots ≡ some (answer r)
unfolding read_slot
open-read_slot key other r d h = elim (Bool-cases (other == key)) [
  | inl own ↦ rw (eq_of_== other key own) (rw (open_answered key r d h) h)
  | inr apart ↦ elim (Option-cases (read_slot other d.slots)) [
    | inl free ↦ rw (open_free other d free) (rw apart h)
    | inr (lock, held) ↦
        rw (open_locked other d held) (read_slot-cleared_other key other d.slots apart ∙ h)
    | inr (answer q, held) ↦ rw (open_answered other q d held) h
  ]
]

finish-read_slot :
    (key other : ℕ) (reply : Reply) (d : Desk)
    → (other == key) ≡ false
    → read_slot key (finish_request other (d, reply)).0.slots ≡ read_slot key d.slots
unfolding finish_request read_slot
finish-read_slot key other (granted q) d apart =
    rw apart (read_slot-cleared_other key other d.slots apart)
finish-read_slot key other (refused e) d apart = read_slot-cleared_other key other d.slots apart

Meanwhile-answer :
    (key r : ℕ) (d n : Desk)
    → read_slot key d.slots ≡ some (answer r)
    → Meanwhile key d n
    → read_slot key n.slots ≡ some (answer r)
Meanwhile-answer key r d n h at_once = h
Meanwhile-answer key r d n h (opens {n = m} other before) =
    open-read_slot key other r m (Meanwhile-answer key r d m h before)
Meanwhile-answer key r d n h (works {n = m} before same) =
    rw same (Meanwhile-answer key r d m h before)
Meanwhile-answer key r d n h (finishes {n = m} other reply apart before) =
    finish-read_slot key other reply m apart ∙ Meanwhile-answer key r d m h before
Meanwhile-answer key r d n h (expires {n = m} other apart before) =
    read_slot-cleared_other key other m.slots apart ∙ Meanwhile-answer key r d m h before

-- When a request under a key has been granted, a later request under it gets the same answer, changes
-- nothing and does not run its body, whatever other requests start, end or expire in between, as long as the
-- key has not expired and no other request was still running under it. Once the key has expired, a request
-- under it runs again.
pub request_again :
    (key : ℕ) (body other_body : Desk → Replied) (d n m : Desk) (r : ℕ)
    → request (some key) body d ≡ (n, granted r)
    → Meanwhile key n m
    → (request (some key) other_body m ≡ (m, granted r))
      × ((open_request key (expire_slot key m)).1 ≡ running)
unfolding request
request_again key body other_body d n m r h between =
    let kept = Meanwhile-answer key r n m (request-answer key body d n r h) between in
    (
      ap (λ o. resumed key other_body o) (open_answered key r m kept),
      ap (λ (o : Desk × Opened). o.1)
          (open_free key (expire_slot key m) (read_slot-cleared key m.slots)),
    )
