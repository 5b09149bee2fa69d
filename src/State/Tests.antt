-- ===== src/State/Tests.antt =====
-- The theorem on lazy values, with a cell that is a value and a permit.
use actix_web_lab.State.OnceCell.{once}
use actix_web_lab.State.LazyData
use actix_web_lab.State.LazyData.{Event, poll_get, drop_get, outputs, left_by}
use actix_web_lab.State.LazyData.Laws.{outputs-IsInit}
use actix_web_lab.State.LazyData.Sharing.{states, IsInit}
use actix_web_lab.Payload.{Step, waits, returns, panics}
use actix_web_lab.Future.{Machine}
use actix_web_lab.Common.{List, Bool, All, ℕ, true, false, ◌∷◌, [], ◌≡◌, refl}

-- A future that waits once and gives 7.
abbrev seven_from : Bool → Bool × Step ℕ
seven_from false = (true, waits)
seven_from true = (true, returns 7)

abbrev seven : Machine ℕ
seven = record { State = Bool; poll = seven_from }

-- The second get waits for the first.
abbrev two_gets : List Event
two_gets = poll_get 0 ∷ (poll_get 1 ∷ (poll_get 0 ∷ (poll_get 1 ∷ [])))

both_seven :
    outputs once seven false two_gets (LazyData.new once seven false)
    ≡ waits ∷ (waits ∷ (returns 7 ∷ (returns 7 ∷ [])))
unfolding LazyData.step LazyData.get LazyData.get_from LazyData.take_fut LazyData.new
both_seven = refl

-- A get that is dropped while it initialises poisons the others.
abbrev dropped_early : List Event
dropped_early = poll_get 0 ∷ (drop_get 0 ∷ (poll_get 1 ∷ []))

poisoned :
    outputs once seven false dropped_early (LazyData.new once seven false)
    ≡ waits ∷ (waits ∷ (panics ∷ []))
unfolding LazyData.step LazyData.get LazyData.get_from LazyData.take_fut LazyData.new
poisoned = refl

outputs-IsInit_example :
    All
      (IsInit once seven false)
      (outputs once seven false dropped_early (LazyData.new once seven false))
    × ((n : ℕ) × ((left_by once seven false dropped_early (LazyData.new once seven false)).polled
          ≡ states once seven false n false))
outputs-IsInit_example = outputs-IsInit once seven false dropped_early
