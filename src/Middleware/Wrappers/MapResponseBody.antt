-- ===== src/Middleware/Wrappers/MapResponseBody.antt =====
-- actix-web-lab/src/middleware_map_response_body.rs: a function that is given the request and the body
-- of each response and makes the future of another body.
use actix_web_lab.Middleware.Wrappers.Sequence.Laws.{Composed-equals}
use actix_web_lab.Middleware.Wrappers.Sequence.{Next, Sequence, Composed, ends, Continues, goes}
use actix_web_lab.Payload.{Step, panics, returns, waits}
use actix_web_lab.Future.{Machine, Settles}
use actix_web_lab.Common.{Option, Result, ℕ, ◌≡◌, some, ◌≢◌, none, err, ap, ok, ◌∙◌, refl, ◌↔◌}

-- `HttpResponse<B>`: its head, and its body.
pub record HttpResponse (Head B : Type 0) : Type 0 where
  pub head : Head
  pub body : B

pub record ServiceResponse (HttpRequest Head B : Type 0) : Type 0 where
  pub request : HttpRequest
  pub response : HttpResponse Head B

-- Of a response that waits for its body there is the head.
pub data MapResBodyFutState (SvcFut FnFut HttpRequest Head : Type 0) : Type 0 where
  svc : SvcFut → MapResBodyFutState SvcFut FnFut HttpRequest Head
  fn : FnFut → Option HttpRequest → Option Head → MapResBodyFutState SvcFut FnFut HttpRequest Head

module _ {Error HttpRequest Head B B2 : Type 0}
    (svc_fut : Machine (Result Error (ServiceResponse HttpRequest Head B)))
    (fn_fut : Machine (Result Error B2)) (mw_fn : HttpRequest → B → fn_fut.State) where
  abbrev pub Fut : Type 0
  Fut = MapResBodyFutState svc_fut.State fn_fut.State HttpRequest Head

  abbrev pub Polled : Type 0
  Polled = Fut × Step (Result Error (ServiceResponse HttpRequest Head B2))

  -- The two `take().unwrap()`, the request first.
  unfoldable pub rebuilt : fn_fut.State → Option HttpRequest → Option Head → B2 → Polled
  rebuilt f none res body = (fn f none res, panics)
  rebuilt f (some req) none body = (fn f none none, panics)
  rebuilt f (some req) (some head) body = (
    fn f none none,
    returns (ok (record { request = req; response = record { head = head; body = body } })),
  )

  unfoldable pub fn_polled :
      Option HttpRequest → Option Head → fn_fut.State × Step (Result Error B2) → Polled
  unfolding rebuilt
  fn_polled req res (f, waits) = (fn f req res, waits)
  fn_polled req res (f, panics) = (fn f req res, panics)
  fn_polled req res (f, returns (err e)) = (fn f req res, returns (err e))
  fn_polled req res (f, returns (ok body)) = rebuilt f req res body

  unfoldable pub svc_polled :
      svc_fut.State × Step (Result Error (ServiceResponse HttpRequest Head B)) → Polled
  unfolding fn_polled
  svc_polled (f, waits) = (svc f, waits)
  svc_polled (f, panics) = (svc f, panics)
  svc_polled (f, returns (err e)) = (svc f, returns (err e))
  svc_polled (f, returns (ok res)) =
      fn_polled (some res.request) (some res.response.head)
        (fn_fut.poll (mw_fn res.request res.response.body))

  unfoldable pub poll : Fut → Polled
  unfolding svc_polled
  poll (svc f) = svc_polled (svc_fut.poll f)
  poll (fn f req res) = fn_polled req res (fn_fut.poll f)

  abbrev pub machine : Machine (Result Error (ServiceResponse HttpRequest Head B2))
  machine = record { State = Fut; poll = poll }

  -- `call`, from the service's future
  unfoldable pub call : svc_fut.State → Fut
  call f = svc f

  -- The response with the body that the function's future comes to.
  abbrev pub with_body :
      HttpRequest
      → Head
      → Step (Result Error B2)
      → Step (Result Error (ServiceResponse HttpRequest Head B2))
  with_body req head waits = waits
  with_body req head panics = panics
  with_body req head (returns (err e)) = returns (err e)
  with_body req head (returns (ok body)) =
      returns (ok (record { request = req; response = record { head = head; body = body } }))

  with_body-waits :
      (req : HttpRequest) (head : Head) (r : Step (Result Error B2))
      → r ≢ waits
      → with_body req head r ≢ waits
  with_body-waits req head waits ne = absurd (ne refl)
  with_body-waits req head panics ne = λ e. cc
  with_body-waits req head (returns (err e)) ne = λ e. cc
  with_body-waits req head (returns (ok body)) ne = λ e. cc

  fn_polled-with_body :
      (req : HttpRequest) (head : Head) (f : fn_fut.State) (r : Step (Result Error B2))
      → (fn_polled (some req) (some head) (f, r)).1 ≡ with_body req head r
  unfolding fn_polled
  fn_polled-with_body req head f waits = refl
  fn_polled-with_body req head f panics = refl
  fn_polled-with_body req head f (returns (err e)) = refl
  fn_polled-with_body req head f (returns (ok body)) = refl

  abbrev pub after :
      Step (Result Error (ServiceResponse HttpRequest Head B))
      → Next (Result Error (ServiceResponse HttpRequest Head B2)) (HttpRequest × Head) fn_fut.State
  after waits = ends waits
  after panics = ends panics
  after (returns (err e)) = ends (returns (err e))
  after (returns (ok res)) =
      goes (res.request, res.response.head) (mw_fn res.request res.response.body)

  abbrev pub kept_in : HttpRequest × Head → fn_fut.State → Fut
  kept_in (req, head) t = fn t (some req) (some head)

  svc-Continues :
      (f : svc_fut.State) (r : Step (Result Error (ServiceResponse HttpRequest Head B)))
      → (svc_fut.poll f).1 ≡ r
      → r ≢ waits
      → Continues machine kept_in (svc f) (after r)
  unfolding poll
  svc-Continues f waits h ne = absurd (ne refl)
  svc-Continues f panics h ne = (ap (λ r. (svc_polled ((svc_fut.poll f).0, r)).1) h, λ e. cc)
  svc-Continues f (returns (err e)) h ne =
      (ap (λ r. (svc_polled ((svc_fut.poll f).0, r)).1) h, λ e. cc)
  svc-Continues f (returns (ok res)) h ne = ap (λ r. svc_polled ((svc_fut.poll f).0, r)) h

  -- The service, and then the function on the request and the body of its response, with the request
  -- and the head kept.
  pub in_sequence : Sequence svc_fut fn_fut machine (HttpRequest × Head)
  unfolding poll
  in_sequence = record {
    into_first = svc;
    into_second = kept_in;
    after = after;
    convert = λ kept r. with_body kept.0 kept.1 r;
    first_waits = λ s h. ap (λ r. svc_polled ((svc_fut.poll s).0, r)) h;
    first_ends = svc-Continues;
    second_waits =
        λ kept t h. ap (λ r. fn_polled (some kept.0) (some kept.1) ((fn_fut.poll t).0, r)) h;
    second_ends = λ kept t r h ne.
        fn_polled-with_body kept.0 kept.1 (fn_fut.poll t).0 (fn_fut.poll t).1
        ∙ ap (with_body kept.0 kept.1) h;
    convert_ends = λ kept r ne. with_body-waits kept.0 kept.1 r ne;
  }

  -- The middleware comes to what one gets who awaits the service and, if that gives a response, the
  -- function's future on its request and body, and puts the body that comes of it into the response,
  -- with request and head kept; after as many waits, and to nothing else. It does not panic unless
  -- one of the two does.
  pub map_response_body-Composed :
      (f : svc_fut.State) (n : ℕ) (out : Step (Result Error (ServiceResponse HttpRequest Head B2)))
      → Composed in_sequence f n out ↔ Settles machine (call f) n out
  unfolding call in_sequence
  map_response_body-Composed f n out = Composed-equals in_sequence f n out
