-- ===== src/Tournament/States.antt =====
-- The states of a tournament and the operations of `TournamentService` that change them.
use pokerhub.Prelude.{Option, none, some, ◌≡◌, ◌≢◌, refl, subst, sym}

pub data TournamentState : Type 0 where
  reg_open running paused cancelled finished : TournamentState

pub data Operation : Type 0 where
  open_registration start pause resume finish cancel : Operation

-- The new state, or none where the operation throws.
unfoldable pub perform : Operation → TournamentState → Option TournamentState
perform open_registration _ = some reg_open
perform start reg_open = some running
perform start _ = none
perform pause running = some paused
perform pause _ = none
perform resume paused = some running
perform resume _ = none
perform finish running = some finished
perform finish paused = some finished
perform finish _ = none
perform cancel reg_open = some cancelled
perform cancel running = some cancelled
perform cancel paused = some cancelled
perform cancel _ = none

-- The states that operations lead to; each is one of those that the parameter admits.
pub data Reaches (admits : Operation → Type 0) (s : TournamentState)
    : TournamentState → Type 0 where
  here : Reaches admits s s
  after :
      {t u : TournamentState} (operation : Operation)
      → admits operation
      → Reaches admits s t
      → perform operation t ≡ some u
      → Reaches admits s u

abbrev pub IsFinal : TournamentState → Type 0
IsFinal finished = Unit
IsFinal cancelled = Unit
IsFinal _ = ⊥

abbrev pub IsReopening : Operation → Type 0
IsReopening open_registration = Unit
IsReopening _ = ⊥

stuck :
    (operation : Operation)
    → ¬ IsReopening operation
    → (perform operation finished ≡ none) × (perform operation cancelled ≡ none)
unfolding perform
stuck open_registration kept = absurd (kept tt)
stuck start kept = (refl, refl)
stuck pause kept = (refl, refl)
stuck resume kept = (refl, refl)
stuck finish kept = (refl, refl)
stuck cancel kept = (refl, refl)

final_step :
    (operation : Operation) (t u : TournamentState)
    → ¬ IsReopening operation
    → IsFinal t
    → perform operation t ≢ some u
final_step operation finished u kept f e = cc ((stuck operation kept).0)
final_step operation cancelled u kept f e = cc ((stuck operation kept).1)
final_step operation reg_open u kept f e = elim f [ ]
final_step operation running u kept f e = elim f [ ]
final_step operation paused u kept f e = elim f [ ]

-- A tournament that is finished or cancelled stays so, whatever operations follow, as long as registration
-- is not opened again.
pub final_stays :
    (s t : TournamentState) → IsFinal s → Reaches (λ operation. ¬ IsReopening operation) s t → t ≡ s
final_stays s t f here = refl
final_stays s t f (after {t = middle} operation kept r e) =
    let same : middle ≡ s = final_stays s middle f r in
    absurd (final_step operation middle t kept (subst IsFinal (sym same) f) e)

-- A tournament that is neither finished nor cancelled can still be finished, without opening registration
-- again.
pub can_finish :
    (s : TournamentState) → ¬ IsFinal s → Reaches (λ operation. ¬ IsReopening operation) s finished
unfolding perform
can_finish reg_open h = after finish (λ x. x) (after start (λ x. x) here refl) refl
can_finish running h = after finish (λ x. x) here refl
can_finish paused h = after finish (λ x. x) here refl
can_finish cancelled h = absurd (h tt)
can_finish finished h = absurd (h tt)
