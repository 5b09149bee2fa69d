-- ===== src/Middleware/Wrappers/Tests.antt =====
-- The theorems on wrappers of a service's future, with futures that wait so many times.
use actix_web_lab.Middleware.Wrappers.Panics.{catching, catching-Settles, Caught}
use actix_web_lab.Middleware.Wrappers.ErrorHandlers.{call-Composed, Registered}
use actix_web_lab.Middleware.Wrappers.MapResponseBody.{ServiceResponse, map_response_body-Composed}
use actix_web_lab.Middleware.Wrappers.ErrorHandlers
use actix_web_lab.Middleware.Wrappers.MapResponseBody
use actix_web_lab.Text.{Text, text}
use actix_web_lab.Middleware.Wrappers.Sequence.{Composed}
use actix_web_lab.Future.{Machine, Settles, later, at_once}
use actix_web_lab.Payload.{Step, returns, waits, panics}
use actix_web_lab.Common.{List, ℕ, suc, Result, ◌∷◌, [], ok, zero, ◌↔◌, some, refl}

-- A future that waits as often as its state says, and then gives this.
abbrev poll_after : {A : Type 0} → Step A → ℕ → ℕ × Step A
poll_after r zero = (0, r)
poll_after r (suc n) = (n, waits)

abbrev after_waits : {A : Type 0} → Step A → Machine A
after_waits r = record { State = ℕ; poll = poll_after r }

-- A service with a response of status 500, whose handler waits twice for a page.
abbrev failing : Machine (Result ⊥ ℕ)
failing = after_waits (returns (ok 500))

abbrev error_page : Machine (Result ⊥ Text)
error_page = after_waits (returns (ok (text "sorry")))

abbrev registered : List (ℕ × (ℕ → ℕ))
registered = (500, λ res. 2) ∷ []

call-Composed_example :
    (Composed
        (ErrorHandlers.in_sequence failing error_page
          (λ res. res)
          (λ res. text "as it is")
          registered)
        1
        3
        (returns (ok (text "sorry")))
      ↔ Settles
          (ErrorHandlers.machine failing error_page
            (λ res. res)
            (λ res. text "as it is")
            registered)
          (ErrorHandlers.call failing error_page (λ res. res) (λ res. text "as it is") registered 1)
          3
          (returns (ok (text "sorry"))))
    × ((res : ℕ) → Registered registered res (ErrorHandlers.get registered res))
call-Composed_example =
    call-Composed failing error_page (λ res. res) (λ res. text "as it is") registered 1 3
      (returns (ok (text "sorry")))

-- A response for the request 1 with the head 200, and a function that waits once for the new body.
abbrev greeting : Machine (Result ⊥ (ServiceResponse ℕ ℕ Text))
greeting =
    after_waits
      (returns (ok (record { request = 1; response = record { head = 200; body = text "hi" } })))

abbrev louder : Machine (Result ⊥ Text)
louder = after_waits (returns (ok (text "HI")))

abbrev loud : Step (Result ⊥ (ServiceResponse ℕ ℕ Text))
loud = returns (ok (record { request = 1; response = record { head = 200; body = text "HI" } }))

map_response_body-Composed_example :
    Composed (MapResponseBody.in_sequence greeting louder (λ req body. 1)) 2 3 loud
    ↔ Settles
        (MapResponseBody.machine greeting louder (λ req body. 1))
        (MapResponseBody.call greeting louder (λ req body. 1) 2)
        3
        loud
map_response_body-Composed_example =
    map_response_body-Composed greeting louder (λ req body. 1) 2 3 loud

-- The whole does come to that.
comes_loud :
    Settles
      (MapResponseBody.machine greeting louder (λ req body. 1))
      (MapResponseBody.call greeting louder (λ req body. 1) 2)
      3
      loud
unfolding MapResponseBody.poll MapResponseBody.call
comes_loud = later refl (later refl (later refl (at_once refl (λ e. cc))))

abbrev panicking : Machine (Result ℕ Text)
panicking = after_waits panics

panics_late : Settles panicking 1 1 panics
panics_late = later refl (at_once refl (λ e. cc))

catching-Settles_example :
    (s : Step (Result ℕ Text)) × Settles (catching panicking 500 (λ req. some req)) 1 1 s
    × Caught 500 panics s
catching-Settles_example = catching-Settles panicking 500 (λ req. some req) panics_late
