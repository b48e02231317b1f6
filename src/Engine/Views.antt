-- ===== src/Engine/Views.antt =====
-- What others than the engine see of a state: `getPublicState`, and `sanitize` of
-- `backend/src/game/state-sanitize.ts`, whose schema version and server time are left out.
use pokerhub.Table.Types.{GameState, SidePot, Phase, Player, Street}
use pokerhub.Prelude.{
  map, Bool, ap, List, [], ◌∷◌, Option, ℕ, refl, ◌≡◌, ◌==◌, length, some, inl, inr, if◌then◌else◌,
  Bool-cases, none, ◌&&◌, Option-cases, sym, ◌∙◌, ap₂, false,
}

pub record PublicPlayer : Type 0 where
  pub id : ℕ
  pub stack : ℕ
  pub folded : Bool
  pub bet : ℕ
  pub all_in : Bool

pub record PublicState : Type 0 where
  pub phase : Phase
  pub street : Street
  pub pot : ℕ
  pub side_pots : List SidePot
  pub current_bet : ℕ
  pub players : List PublicPlayer
  pub community_cards : List ℕ

abbrev pub public_player : Player → PublicPlayer
public_player p = record {
  id = p.id;
  stack = p.stack;
  folded = p.folded;
  bet = p.bet;
  all_in = p.all_in;
}

-- `getPublicState()`
unfoldable pub public_state : GameState → PublicState
public_state s = record {
  phase = s.phase;
  street = s.street;
  pot = s.pot;
  side_pots = s.side_pots;
  current_bet = s.current_bet;
  players = map public_player s.players;
  community_cards = s.community_cards;
}

-- The same player with another hand.
abbrev pub with_cards : (Player → Option (List ℕ)) → Player → Player
with_cards cards p = record p { hole_cards = cards p }

players-with_cards :
    (cards : Player → Option (List ℕ)) (ps : List Player)
    → map public_player (map (with_cards cards) ps) ≡ map public_player ps
players-with_cards cards [] = refl
players-with_cards cards (p ∷ ps) = ap (◌∷◌ (public_player p)) (players-with_cards cards ps)

-- States that differ in hole cards and in the deck alone have the same public state.
pub public_state_hides :
    (s : GameState) (cards : Player → Option (List ℕ)) (deck : List ℕ)
    → public_state (record s { players = map (with_cards cards) s.players; deck = deck })
      ≡ public_state s
unfolding public_state
public_state_hides s cards deck = rw (players-with_cards cards s.players) refl

-- The cards of a player for a viewer: only one's own, and only when there are two.
abbrev pub shown_cards : Option ℕ → Player → Option (List ℕ)
shown_cards none p = none
shown_cards (some viewer) p = elim p.hole_cards [
  | none ↦ none
  | some cards ↦ if viewer == p.id && length cards == 2 then some cards else none
]

-- `sanitize(state, playerId)`
unfoldable pub sanitize : Option ℕ → GameState → PublicState × List (Option (List ℕ))
unfolding public_state
sanitize viewer s = (public_state s, map (shown_cards viewer) s.players)

-- The same player with another hand, unless it is the viewer.
abbrev pub with_other_cards : Option ℕ → (Player → Option (List ℕ)) → Player → Player
with_other_cards none cards p = with_cards cards p
with_other_cards (some viewer) cards p = if viewer == p.id then p else with_cards cards p

not_shown :
    (viewer : ℕ) (p : Player) → (viewer == p.id) ≡ false → shown_cards (some viewer) p ≡ none
not_shown viewer p h = elim (Option-cases p.hole_cards) [
  | inl e ↦ rw e refl
  | inr (cards, e) ↦ rw e (rw h refl)
]

shown_player :
    (viewer : Option ℕ) (cards : Player → Option (List ℕ)) (p : Player)
    → (shown_cards viewer (with_other_cards viewer cards p) ≡ shown_cards viewer p)
      × (public_player (with_other_cards viewer cards p) ≡ public_player p)
shown_player none cards p = (refl, refl)
shown_player (some viewer) cards p = elim (Bool-cases (viewer == p.id)) [
  | inl own ↦ rw own (refl, refl)
  | inr hidden ↦
      rw hidden
        (not_shown viewer (with_cards cards p) hidden ∙ sym (not_shown viewer p hidden), refl)
]

shown_players :
    (viewer : Option ℕ) (cards : Player → Option (List ℕ)) (ps : List Player)
    → (map (shown_cards viewer) (map (with_other_cards viewer cards) ps)
        ≡ map (shown_cards viewer) ps)
      × (map public_player (map (with_other_cards viewer cards) ps) ≡ map public_player ps)
shown_players viewer cards [] = (refl, refl)
shown_players viewer cards (p ∷ ps) =
    let (shown, same) = shown_player viewer cards p in
    let (rest, others) = shown_players viewer cards ps in
    (ap₂ (◌∷◌) shown rest, ap₂ (◌∷◌) same others)

-- What a viewer is sent does not depend on the cards of the other players, nor on the deck: states that
-- differ in these alone are sent as the same.
pub sanitize_hides :
    (viewer : Option ℕ) (s : GameState) (cards : Player → Option (List ℕ)) (deck : List ℕ)
    → sanitize viewer
        (record s { players = map (with_other_cards viewer cards) s.players; deck = deck })
      ≡ sanitize viewer s
unfolding sanitize
sanitize_hides viewer s cards deck =
    let (shown, same) = shown_players viewer cards s.players in rw (shown, same) refl
