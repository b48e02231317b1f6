-- ===== src/Deck.antt =====
-- The deck of a hand: `shared/verify/index.ts` (`prng`, `shuffle`, `standardDeck`) and
-- `HandStateMachine.buildDeck` of `backend/src/game/state-machine.ts`.
-- The SHA-256 digest of seed and counter is a parameter, four bytes for each counter. A JavaScript
-- array is a list of slots, where `none` is `undefined`, together with the properties that
-- a write at a negative index leaves on the array object.
-- `Math.floor(r * (i + 1))` is computed on doubles in the source and exactly here. For at most 52 cards
-- the two agree but for two words at `i = 50`, where the product rounds below a whole number;
-- `rounds_down` names them.
pub mod Shuffle
pub mod Build
pub mod Undefined
use pokerhub.Prelude.{
  ℕ, zero, suc, ◌+◌, ◌-◌, ◌*◌, ◌/◌, ◌^◌, ◌≤◌, ◌<◌, ◌≡◌, Bool, true, false, not, ◌&&◌, ◌||◌, Option,
  none, some, List, [], ◌∷◌, ◌++◌, ltb, leb, ◌==◌, if◌then◌else◌, length, get_elem?, set, filter,
  includes, map,
}
use pokerhub.Prelude.Int.{ℤ, pos, negsuc}

-- The first four bytes of a digest.
pub record Digest : Type 0 where
  pub b0 : ℕ
  pub b1 : ℕ
  pub b2 : ℕ
  pub b3 : ℕ

abbrev pub IsBytes : Digest → Type 0
IsBytes d = (d.b0 < 256) × (d.b1 < 256) × (d.b2 < 256) × (d.b3 < 256)

-- `(bytes[0] << 24) | (bytes[1] << 16) | (bytes[2] << 8) | bytes[3]`, before it is read as signed.
pub word : Digest → ℕ
word d = d.b0 * 16777216 + d.b1 * 65536 + d.b2 * 256 + d.b3

-- The words -1179010630 and -589505315, whose product with 51 is rounded below a whole number.
rounds_down : ℕ → ℕ → Bool
rounds_down magnitude i = i == 50 && (magnitude == 1179010630 || magnitude == 589505315)

-- `Math.floor(r * (i + 1))` for `r` the signed 32-bit word over 0xffffffff.
pub draw : Digest → ℕ → ℤ
unfolding word rounds_down
draw d i =
    let w = word d in
    let magnitude = 4294967296 - w in
    let ceiling = (magnitude * (i + 1) + 0xffffffff - 1) / 0xffffffff in
    if ltb w 2147483648
    then pos (w * (i + 1) / 0xffffffff)
    else if rounds_down magnitude i
    then negsuc ceiling
    else negsuc (ceiling - 1)

-- An array object: its elements, and what its negative properties hold.
pub record Slots : Type 0 where
  pub items : List (Option ℕ)
  pub extra : List (ℕ × Option ℕ)

abbrev pub flat : Option (Option ℕ) → Option ℕ
flat none = none
flat (some o) = o

pub lookup_extra : ℕ → List (ℕ × Option ℕ) → Option ℕ
lookup_extra k [] = none
lookup_extra k ((j, o) ∷ m) = if j == k then o else lookup_extra k m

pub read_at : Slots → ℤ → Option ℕ
unfolding lookup_extra
read_at a (pos n) = flat (get_elem? a.items n)
read_at a (negsuc n) = lookup_extra n a.extra

pub write_at : Slots → ℤ → Option ℕ → Slots
write_at a (pos n) o = record a { items = set a.items n o }
write_at a (negsuc n) o = record a { extra = (n, o) ∷ a.extra }

-- `[arr[i], arr[j]] = [arr[j], arr[i]]`
pub swap_at : Slots → ℕ → ℤ → Slots
unfolding read_at write_at
swap_at a i j = write_at (write_at a (pos i) (read_at a j)) j (read_at a (pos i))

-- The loop of `shuffle` from index `i` down to 1, the generator's counter at `k`.
pub shuffle_from : (ℕ → Digest) → ℕ → ℕ → Slots → Slots
unfolding draw swap_at
shuffle_from hash zero k a = a
shuffle_from hash (suc i) k a =
    shuffle_from hash i (k + 1) (swap_at a (suc i) (draw (hash k) (suc i)))

-- `shuffle(items, seed)`, the seed given by its digests.
unfoldable pub shuffle : (ℕ → Digest) → List ℕ → List (Option ℕ)
unfolding shuffle_from
shuffle hash items =
    (shuffle_from hash (length items - 1) 0 (record { items = map some items; extra = [] })).items

-- `n, n + 1, ..., n + k - 1`
pub numbers_from : ℕ → ℕ → List ℕ
numbers_from n zero = []
numbers_from n (suc k) = n ∷ numbers_from (n + 1) k

unfoldable pub standard_deck : List ℕ
unfolding numbers_from
standard_deck = numbers_from 0 52

-- One round of the first loop of `buildDeck`.
pub keep_card : List ℕ → List ℕ → ℕ → List ℕ
keep_card excluded deck card =
    if not (includes card excluded) && not (includes card deck) then deck ++ card ∷ [] else deck

-- First loop of `buildDeck`: the shuffled numbers that are neither excluded nor seen before.
pub keep_fresh : List ℕ → List ℕ → List (Option ℕ) → List ℕ
unfolding keep_card
keep_fresh excluded deck [] = deck
keep_fresh excluded deck (none ∷ rest) = keep_fresh excluded deck rest
keep_fresh excluded deck (some card ∷ rest) =
    keep_fresh excluded (keep_card excluded deck card) rest

-- One round of the second loop.
pub add_missing : List ℕ → ℕ → List ℕ
add_missing deck card = if includes card deck then deck else deck ++ card ∷ []

-- Second loop of `buildDeck`: the available cards that are not in the deck yet.
pub fill_up : List ℕ → List ℕ → List ℕ
unfolding add_missing
fill_up deck [] = deck
fill_up deck (card ∷ rest) = fill_up (add_missing deck card) rest

-- `standardDeck().filter((card) => !excluded.has(card))`
unfoldable pub available : List ℕ → List ℕ
unfolding standard_deck
available excluded = filter (λ card. not (includes card excluded)) standard_deck

-- `buildDeck(excluded)` over `rng.shuffle`. The set `seen` always holds the cards of `deck`.
unfoldable pub build_deck : (List ℕ → List (Option ℕ)) → List ℕ → List ℕ
unfolding available keep_fresh fill_up
build_deck shuffled excluded =
    let deck = keep_fresh excluded [] (shuffled (available excluded)) in
    if ltb (length deck) (length (available excluded))
    then fill_up deck (available excluded)
    else deck
