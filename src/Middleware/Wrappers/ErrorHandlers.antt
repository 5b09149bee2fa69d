-- ===== src/Middleware/Wrappers/ErrorHandlers.antt =====
-- actix-web-lab/src/err_handler.rs: a response with a status for which a handler is registered goes to
-- that handler.
use actix_web_lab.Middleware.Wrappers.Sequence.Laws.{Composed-equals}
use actix_web_lab.Middleware.Wrappers.Sequence.{Next, Continues, Sequence, Composed, ends, goes}
use actix_web_lab.Payload.{Step, returns, waits, panics}
use actix_web_lab.Future.{Machine, Settles}
use actix_web_lab.Common.{
  List, ℕ, [], Bool, false, Option, true, Result, if◌then◌else◌, none, some, ◌∷◌, ◌==◌, ok, err, ap,
  ◌≡◌, ◌≢◌, ◌↔◌, refl, if_holds, arith, subst, sym,
}

-- `Rc<HashMap<StatusCode, _>>`, latest first, and whether a middleware shares it. A handler is given
-- a response and makes a future.
pub record ErrorHandlers (Response Fut : Type 0) : Type 0 where
  pub handlers : List (ℕ × (Response → Fut))
  pub shared : Bool

unfoldable pub new : {Response Fut : Type 0} → ErrorHandlers Response Fut
new = record { handlers = []; shared = false }

-- `Rc::get_mut(..).unwrap()`: no value is a panic.
unfoldable pub handler :
    {Response Fut : Type 0}
    → ℕ
    → (Response → Fut)
    → ErrorHandlers Response Fut
    → Option (ErrorHandlers Response Fut)
handler status f h =
    if h.shared then none else some (record h { handlers = (status, f) ∷ h.handlers })

-- `new_transform`, which leaves a middleware that shares the handlers.
unfoldable pub new_transform :
    {Response Fut : Type 0}
    → ErrorHandlers Response Fut
    → ErrorHandlers Response Fut × List (ℕ × (Response → Fut))
new_transform h = (record h { shared = true }, h.handlers)

unfoldable pub get : {Handler : Type 0} → List (ℕ × Handler) → ℕ → Option Handler
get [] status = none
get ((s, h) ∷ hs) status = let rest = get hs status in if s == status then some h else rest

-- The handler that was registered last for a status, if one was.
pub data Registered {Handler : Type 0} : List (ℕ × Handler) → ℕ → Option Handler → Type 0 where
  nowhere : {status : ℕ} → Registered [] status none
  latest :
      {status : ℕ} {h : Handler} {hs : List (ℕ × Handler)}
      → Registered ((status, h) ∷ hs) status (some h)
  earlier :
      {status other : ℕ} {h : Handler} {hs : List (ℕ × Handler)} {o : Option Handler}
      → other ≢ status
      → Registered hs status o
      → Registered ((other, h) ∷ hs) status o

pub get-Registered :
    {Handler : Type 0} (hs : List (ℕ × Handler)) (status : ℕ) → Registered hs status (get hs status)
unfolding get
get-Registered [] status = nowhere
get-Registered ((other, h) ∷ hs) status =
    if_holds (Registered ((other, h) ∷ hs) status) (other == status)
      (λ same.
        let e : other ≡ status = ground arith in
        subst (λ s. Registered ((s, h) ∷ hs) status (some h)) (sym e) latest)
      (λ differs. earlier (λ e. ground arith) (get-Registered hs status))

pub data ErrorHandlersFuture (Fut HandlerFut : Type 0) : Type 0 where
  service_future : Fut → ErrorHandlersFuture Fut HandlerFut
  error_handler_future : HandlerFut → ErrorHandlersFuture Fut HandlerFut

-- The service, the handlers' futures, the status of a response, and `map_into_left_body`.
module _ {Error Response Mapped : Type 0} (fut : Machine (Result Error Response))
    (handler_fut : Machine (Result Error Mapped)) (status : Response → ℕ)
    (map_into_left_body : Response → Mapped)
    (handlers : List (ℕ × (Response → handler_fut.State))) where
  abbrev pub Polled : Type 0
  Polled = ErrorHandlersFuture fut.State handler_fut.State × Step (Result Error Mapped)

  abbrev pub handler_polled : handler_fut.State × Step (Result Error Mapped) → Polled
  handler_polled (f, r) = (error_handler_future f, r)

  abbrev pub handled : fut.State → Response → Option (Response → handler_fut.State) → Polled
  handled f res (some h) = handler_polled (handler_fut.poll (h res))
  handled f res none = (service_future f, returns (ok (map_into_left_body res)))

  unfoldable pub service_polled : fut.State × Step (Result Error Response) → Polled
  service_polled (f, waits) = (service_future f, waits)
  service_polled (f, panics) = (service_future f, panics)
  service_polled (f, returns (err e)) = (service_future f, returns (err e))
  service_polled (f, returns (ok res)) = handled f res (get handlers (status res))

  unfoldable pub poll : ErrorHandlersFuture fut.State handler_fut.State → Polled
  unfolding service_polled
  poll (service_future f) = service_polled (fut.poll f)
  poll (error_handler_future f) = handler_polled (handler_fut.poll f)

  abbrev pub machine : Machine (Result Error Mapped)
  machine = record { State = ErrorHandlersFuture fut.State handler_fut.State; poll = poll }

  -- `call`, from the service's future
  unfoldable pub call : fut.State → ErrorHandlersFuture fut.State handler_fut.State
  call f = service_future f

  -- What a response of the service, an error or a panic leads to.
  abbrev pub handle :
      Response
      → Option (Response → handler_fut.State)
      → Next (Result Error Mapped) Unit handler_fut.State
  handle res none = ends (returns (ok (map_into_left_body res)))
  handle res (some h) = goes tt (h res)

  abbrev pub after :
      Step (Result Error Response) → Next (Result Error Mapped) Unit handler_fut.State
  after waits = ends waits
  after panics = ends panics
  after (returns (err e)) = ends (returns (err e))
  after (returns (ok res)) = handle res (get handlers (status res))

  handled-Continues :
      (f : ErrorHandlersFuture fut.State handler_fut.State) (s : fut.State) (res : Response)
      (h : Option (Response → handler_fut.State))
      → poll f ≡ handled s res h
      → Continues machine (λ kept t. error_handler_future t) f (handle res h)
  unfolding poll
  handled-Continues f s res none e = (ap (λ p. p.1) e, λ e. cc)
  handled-Continues f s res (some h) e = e

  service-Continues :
      (f : fut.State) (r : Step (Result Error Response))
      → (fut.poll f).1 ≡ r
      → r ≢ waits
      → Continues machine (λ kept t. error_handler_future t) (service_future f) (after r)
  unfolding poll
  service-Continues f waits h ne = absurd (ne refl)
  service-Continues f panics h ne = (ap (λ r. (service_polled ((fut.poll f).0, r)).1) h, λ e. cc)
  service-Continues f (returns (err e)) h ne =
      (ap (λ r. (service_polled ((fut.poll f).0, r)).1) h, λ e. cc)
  service-Continues f (returns (ok res)) h ne =
      handled-Continues (service_future f) (fut.poll f).0 res (get handlers (status res))
        (ap (λ r. service_polled ((fut.poll f).0, r)) h)

  -- The service, and then the handler for the status of its response.
  pub in_sequence : Sequence fut handler_fut machine Unit
  unfolding poll
  in_sequence = record {
    into_first = service_future;
    into_second = λ kept t. error_handler_future t;
    after = after;
    convert = λ kept r. r;
    first_waits = λ s h. ap (λ r. service_polled ((fut.poll s).0, r)) h;
    first_ends = service-Continues;
    second_waits = λ kept t h. ap (λ r. handler_polled ((handler_fut.poll t).0, r)) h;
    second_ends = λ kept t r h ne. h;
    convert_ends = λ kept r ne. ne;
  }

  -- The middleware comes to what one gets who awaits the service, looks up the status of its
  -- response, awaits the handler that was registered last for it, or takes the response as it is if
  -- none was; after as many waits, and to nothing else. An error and a panic of the service go past
  -- the handlers.
  pub call-Composed :
      (f : fut.State) (n : ℕ) (out : Step (Result Error Mapped))
      → (Composed in_sequence f n out ↔ Settles machine (call f) n out)
        × ((res : Response) → Registered handlers (status res) (get handlers (status res)))
  unfolding call in_sequence
  call-Composed f n out =
      (Composed-equals in_sequence f n out, λ res. get-Registered handlers (status res))
