-- ===== src/Middleware/Wrappers/Panics.antt =====
-- actix-web-lab/src/catch_panic.rs and panic_reporter.rs: a panic of a service's future is answered, or
-- reported and passed on. What unwinds is a value of its own, `panics`; that of the call that makes
-- the future, which is not inside `catch_unwind`, is no future.
use actix_web_lab.Future.{Machine, Settles, at_once, later}
use actix_web_lab.Payload.{Step, returns, panics, waits}
use actix_web_lab.Common.{
  Result, Option, ℕ, ◌≢◌, err, suc, ◌≡◌, some, refl, ap, none, ◌∙◌, subst, sym,
}

-- What a catching service makes of a future's result.
abbrev pub caught :
    {Error Response : Type 0} → Error → Step (Result Error Response) → Step (Result Error Response)
caught internal waits = waits
caught internal panics = returns (err internal)
caught internal (returns r) = returns r

-- What a caught future is meant to come to: the value, or an internal error in place of a panic.
pub data Caught {Error Response : Type 0} (internal : Error)
    : Step (Result Error Response) → Step (Result Error Response) → Type 0 where
  value : {r : Result Error Response} → Caught internal (returns r) (returns r)
  in_place_of_panic : Caught internal panics (returns (err internal))

caught-Caught :
    {Error Response : Type 0} (internal : Error) (r : Step (Result Error Response))
    → r ≢ waits
    → Caught internal r (caught internal r)
caught-Caught internal waits ne = absurd (ne refl)
caught-Caught internal panics ne = in_place_of_panic
caught-Caught internal (returns r) ne = value

-- `internal` is `ErrorInternalServerError("")`.
module _ {Error Response Req : Type 0} (fut : Machine (Result Error Response)) (internal : Error)
    (service : Req → Option fut.State) where
  abbrev pub catch_polled :
      fut.State × Step (Result Error Response) → fut.State × Step (Result Error Response)
  catch_polled (f, r) = (f, caught internal r)

  -- The future that `CatchPanicMiddleware::call` makes
  abbrev pub catching : Machine (Result Error Response)
  catching = record { State = fut.State; poll = λ f. catch_polled (fut.poll f) }

  -- The service is called before its future is wrapped.
  unfoldable pub catch_call : Req → Option catching.State
  catch_call req = service req

  caught-waits : (r : Step (Result Error Response)) → r ≢ waits → caught internal r ≢ waits
  caught-waits waits ne = absurd (ne refl)
  caught-waits panics ne = λ e. cc
  caught-waits (returns r) ne = λ e. cc

  -- From a future on, the whole never panics: after as many waits it comes to the future's result,
  -- and to an internal error where the future panics.
  pub catching-Settles :
      {f : fut.State} {n : ℕ} {r : Step (Result Error Response)}
      → Settles fut f n r
      → (s : Step (Result Error Response)) × Settles catching f n s × Caught internal r s
  catching-Settles (at_once {r = r} h ne) = (
    caught internal r,
    at_once (ap (caught internal) h) (caught-waits r ne),
    caught-Caught internal r ne,
  )
  catching-Settles (later h rest) =
      let (s, settles, is_caught) = catching-Settles rest in
      (s, later (ap (caught internal) h) settles, is_caught)

-- `PanicReporter` with its callback, which here counts the reports.
module _ {A Req : Type 0} (fut : Machine A) (service : Req → Option fut.State) where
  abbrev pub reported : fut.State × Step A → ℕ → (fut.State × ℕ) × Step A
  reported (f, waits) reports = ((f, reports), waits)
  reported (f, panics) reports = ((f, suc reports), panics)
  reported (f, returns r) reports = ((f, reports), returns r)

  -- The future that `PanicReporterMiddleware::call` makes, with the reports so far
  unfoldable pub report_poll : fut.State × ℕ → (fut.State × ℕ) × Step A
  report_poll (f, reports) = reported (fut.poll f) reports

  reported-result :
      (polled : fut.State × Step A) (reports : ℕ) → (reported polled reports).1 ≡ polled.1
  reported-result (f, waits) reports = refl
  reported-result (f, panics) reports = refl
  reported-result (f, returns r) reports = refl

  reported-state :
      (polled : fut.State × Step A) (reports : ℕ)
      → polled.1 ≡ waits
      → (reported polled reports).0 ≡ (polled.0, reports)
  reported-state (f, waits) reports h = refl
  reported-state (f, panics) reports h = cc
  reported-state (f, returns r) reports h = cc

  abbrev pub reporting : Machine A
  reporting = record { State = fut.State × ℕ; poll = report_poll }

  unfoldable pub report_call : Req → ℕ → Option (fut.State × ℕ)
  report_call req reports = elim (service req) [ none ↦ none | some f ↦ some (f, reports) ]

  -- Reports do not change what the future comes to.
  reporting-Settles :
      {f : fut.State} {n : ℕ} {r : Step A} (reports : ℕ)
      → Settles fut f n r
      → Settles reporting (f, reports) n r
  unfolding report_poll
  reporting-Settles reports (at_once {s = f} {r = r} h ne) =
      at_once (reported-result (fut.poll f) reports ∙ h) ne
  reporting-Settles reports (later {s = f} {n = n} {r = r} h rest) =
      later (reported-result (fut.poll f) reports ∙ h) (
        subst (λ s. Settles reporting s n r) (sym (reported-state (fut.poll f) reports h))
          (reporting-Settles reports rest))
