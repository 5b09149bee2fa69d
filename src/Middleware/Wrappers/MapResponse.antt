-- ===== src/Middleware/Wrappers/MapResponse.antt =====
-- actix-web-lab/src/middleware_map_response.rs: a function that is given each response and makes the
-- future of another one.
use actix_web_lab.Middleware.Wrappers.Sequence.Laws.{Composed-equals}
use actix_web_lab.Middleware.Wrappers.Sequence.{Next, Sequence, Composed, ends, Continues, goes}
use actix_web_lab.Payload.{Step, returns, panics, waits}
use actix_web_lab.Future.{Machine, Settles}
use actix_web_lab.Common.{Result, ℕ, ◌≡◌, err, ap, ok, ◌≢◌, ◌↔◌, refl}

pub data MapResFutState (SvcFut FnFut : Type 0) : Type 0 where
  svc : SvcFut → MapResFutState SvcFut FnFut
  fn : FnFut → MapResFutState SvcFut FnFut

-- The service, the function's futures, and the function.
module _ {Error Response Mapped : Type 0} (svc_fut : Machine (Result Error Response))
    (fn_fut : Machine (Result Error Mapped)) (mw_fn : Response → fn_fut.State) where
  abbrev pub Polled : Type 0
  Polled = MapResFutState svc_fut.State fn_fut.State × Step (Result Error Mapped)

  abbrev pub fn_polled : fn_fut.State × Step (Result Error Mapped) → Polled
  fn_polled (f, r) = (fn f, r)

  unfoldable pub svc_polled : svc_fut.State × Step (Result Error Response) → Polled
  svc_polled (f, waits) = (svc f, waits)
  svc_polled (f, panics) = (svc f, panics)
  svc_polled (f, returns (err e)) = (svc f, returns (err e))
  svc_polled (f, returns (ok res)) = fn_polled (fn_fut.poll (mw_fn res))

  unfoldable pub poll : MapResFutState svc_fut.State fn_fut.State → Polled
  unfolding svc_polled
  poll (svc f) = svc_polled (svc_fut.poll f)
  poll (fn f) = fn_polled (fn_fut.poll f)

  abbrev pub machine : Machine (Result Error Mapped)
  machine = record { State = MapResFutState svc_fut.State fn_fut.State; poll = poll }

  -- `call`, from the service's future
  unfoldable pub call : svc_fut.State → MapResFutState svc_fut.State fn_fut.State
  call f = svc f

  abbrev pub after : Step (Result Error Response) → Next (Result Error Mapped) Unit fn_fut.State
  after waits = ends waits
  after panics = ends panics
  after (returns (err e)) = ends (returns (err e))
  after (returns (ok res)) = goes tt (mw_fn res)

  svc-Continues :
      (f : svc_fut.State) (r : Step (Result Error Response))
      → (svc_fut.poll f).1 ≡ r
      → r ≢ waits
      → Continues machine (λ kept t. fn t) (svc f) (after r)
  unfolding poll
  svc-Continues f waits h ne = absurd (ne refl)
  svc-Continues f panics h ne = (ap (λ r. (svc_polled ((svc_fut.poll f).0, r)).1) h, λ e. cc)
  svc-Continues f (returns (err e)) h ne =
      (ap (λ r. (svc_polled ((svc_fut.poll f).0, r)).1) h, λ e. cc)
  svc-Continues f (returns (ok res)) h ne = ap (λ r. svc_polled ((svc_fut.poll f).0, r)) h

  -- The service, and then the function on its response.
  pub in_sequence : Sequence svc_fut fn_fut machine Unit
  unfolding poll
  in_sequence = record {
    into_first = svc;
    into_second = λ kept t. fn t;
    after = after;
    convert = λ kept r. r;
    first_waits = λ s h. ap (λ r. svc_polled ((svc_fut.poll s).0, r)) h;
    first_ends = svc-Continues;
    second_waits = λ kept t h. ap (λ r. fn_polled ((fn_fut.poll t).0, r)) h;
    second_ends = λ kept t r h ne. h;
    convert_ends = λ kept r ne. ne;
  }

  -- The middleware comes to what one gets who awaits the service and, if that gives a response, the
  -- function's future on it; after as many waits, and to nothing else.
  pub map_response-Composed :
      (f : svc_fut.State) (n : ℕ) (out : Step (Result Error Mapped))
      → Composed in_sequence f n out ↔ Settles machine (call f) n out
  unfolding call in_sequence
  map_response-Composed f n out = Composed-equals in_sequence f n out
