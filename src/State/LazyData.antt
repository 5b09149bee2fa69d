-- ===== src/State/LazyData.antt =====
-- actix-web-lab/src/lazy_data.rs: a value that the first `get` makes. All clones share one cell, tokio's
-- OnceCell (State/OnceCell), and one future.
pub mod Sharing
pub mod Laws
use actix_web_lab.Payload.{Step, returns, panics, waits}
use actix_web_lab.Future.{Machine}
use actix_web_lab.State.OnceCell.{OnceCell, Found, full, granted, busy}
use actix_web_lab.Common.{
  List, Option, ℕ, none, some, if◌then◌else◌, ◌∷◌, ◌++◌, ◌==◌, [], Result, err, ok,
}

-- `cell`; `fut`; the block of the get that runs the initialisation, with the future that it took; and, for
-- the record, the states in which the initialisation was polled.
pub record LazyData (T S Cell : Type 0) : Type 0 where
  pub cell : Cell
  pub fut : Option S
  pub running : Option (ℕ × S)
  pub polled : List S

-- What may happen: the get of this number is polled, or it is dropped.
pub data Event : Type 0 where
  poll_get drop_get : ℕ → Event

-- The initialisation is a future, of which `init` is the first state.
module _ {T : Type 0} (once : OnceCell T) (init_fut : Machine T) (init : init_fut.State) where
  abbrev pub Lazy : Type 0
  Lazy = LazyData T init_fut.State once.Cell

  unfoldable pub new : Lazy
  new = record { cell = once.new; fut = some init; running = none; polled = [] }

  -- The block of the get of this number polled the initialisation.
  abbrev pub run_init : ℕ → init_fut.State × Step T → Lazy → Lazy × Step T
  run_init i (s, waits) l = (record l { running = some (i, s) }, waits)
  run_init i (s, panics) l = (record l { cell = once.leave i l.cell; running = none }, panics)
  run_init i (s, returns v) l = (record l { cell = once.fill v l.cell; running = none }, returns v)

  abbrev pub poll_init : ℕ → init_fut.State → Lazy → Lazy × Step T
  poll_init i s l = run_init i (init_fut.poll s) (record l { polled = l.polled ++ s ∷ [] })

  -- The block that `get_or_init` is given: `fut.take()`, and the future, or the panic
  unfoldable pub take_fut : ℕ → Option init_fut.State → Lazy → Lazy × Step T
  take_fut i (some s) l = poll_init i s (record l { fut = none })
  take_fut i none l = (record l { cell = once.leave i l.cell }, panics)

  -- A block that was polled before goes on with the future that it took.
  abbrev pub get_running : ℕ → Option (ℕ × init_fut.State) → Lazy → Lazy × Step T
  get_running i none l = take_fut i l.fut l
  get_running i (some (j, s)) l = poll_init i s l

  unfoldable pub get_from : ℕ → Found T → Lazy → Lazy × Step T
  unfolding take_fut
  get_from i (full v) l = (l, returns v)
  get_from i busy l = (l, waits)
  get_from i granted l = get_running i l.running l

  unfoldable pub get : ℕ → Lazy → Lazy × Step T
  unfolding get_from
  get i l = let (cell, found) = once.enter i l.cell in get_from i found (record l { cell = cell })

  abbrev pub drop_running : ℕ → Option (ℕ × init_fut.State) → Option (ℕ × init_fut.State)
  drop_running i none = none
  drop_running i (some (j, s)) = if i == j then none else some (j, s)

  unfoldable pub step : Event → Lazy → Lazy × Step T
  unfolding get
  step (poll_get i) l = get i l
  step (drop_get i) l =
      (record l { cell = once.leave i l.cell; running = drop_running i l.running }, waits)

  -- What the polls of the gets come to, in turn, and what is left behind them.
  abbrev pub outputs : List Event → Lazy → List (Step T)
  outputs [] l = []
  outputs (e ∷ es) l = (step e l).1 ∷ outputs es (step e l).0

  abbrev pub left_by : List Event → Lazy → Lazy
  left_by [] l = l
  left_by (e ∷ es) l = left_by es (step e l).0

-- `internal` is `ErrorInternalServerError` with its message.
unfoldable pub from_request :
    {T S Cell Error : Type 0}
    → Error
    → Option (LazyData T S Cell)
    → Result Error (LazyData T S Cell)
from_request internal none = err internal
from_request internal (some lazy) = ok lazy
