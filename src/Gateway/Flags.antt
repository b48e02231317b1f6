-- ===== src/Gateway/Flags.antt =====
-- `FeatureFlagsService` of `backend/src/feature-flags/feature-flags.service.ts`, without the listing of all
-- flags. A stored value is taken for whether it is '1' or 'true'.
use pokerhub.Prelude.{
  Option, ◌==◌, none, Bool, not, ◌∷◌, filter, ◌||◌, false, ◌&&◌, [], if◌then◌else◌, ℕ, some, List,
  true,
}

pub data Switch : Type 0 where
  dealing settlement : Switch

pub data FlagKey : Type 0 where
  everywhere : Switch → FlagKey
  at_room : ℕ → Switch → FlagKey
  at_tourney : ℕ → Switch → FlagKey

abbrev same_switch : Switch → Switch → Bool
same_switch dealing dealing = true
same_switch settlement settlement = true
same_switch _ _ = false

abbrev same_flag : FlagKey → FlagKey → Bool
same_flag (everywhere a) (everywhere b) = same_switch a b
same_flag (at_room t a) (at_room u b) = t == u && same_switch a b
same_flag (at_tourney t a) (at_tourney u b) = t == u && same_switch a b
same_flag _ _ = false

abbrev pub Flags : Type 0
Flags = List (FlagKey × Bool)

-- `get(key)`
unfoldable pub get_flag : FlagKey → Flags → Option Bool
get_flag key [] = none
get_flag key ((other_key, value) ∷ flags) =
    let rest = get_flag key flags in if same_flag other_key key then some value else rest

-- `set(key, value)`
abbrev pub set_flag : FlagKey → Bool → Flags → Flags
set_flag key value flags = (key, value) ∷ flags

-- `delete(key)`
unfoldable pub delete_flag : FlagKey → Flags → Flags
delete_flag key flags = filter (λ entry. not (same_flag entry.0 key)) flags

abbrev is_false : Option Bool → Bool
is_false (some false) = true
is_false _ = false

-- `get(flag) === false || getRoom(table, flag) === false`
unfoldable pub is_off : Switch → ℕ → Flags → Bool
unfolding get_flag
is_off s table flags =
    is_false (get_flag (everywhere s) flags) || is_false (get_flag (at_room table s) flags)

-- `canDeal(table)`
unfoldable pub can_deal : ℕ → Flags → Bool
unfolding is_off
can_deal table flags = not (is_off dealing table flags)
