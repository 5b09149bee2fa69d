-- ===== src/Middleware/LoadShed/Laws.antt =====
-- When load_shed.rs calls the service that it wraps, over any sequence of polls and calls.
use actix_web_lab.Common.{
  Bool, true, false, List, [], ◌∷◌, ◌≡◌, refl, subst, Bool-cases, inl, inr, Result, ok, err, Poll,
  pending, ready,
}
use actix_web_lab.Middleware.LoadShed.{
  Overloaded, service, LoadShedService, new, called, shed, poll_ready, polled, call,
}

-- What the inner service sees.
pub data Seen : Type 0 where
  said_ready said_pending said_error was_called : Seen

abbrev pub seen_of : {E : Type 0} → Poll (Result E (Unit {0})) → Seen
seen_of pending = said_pending
seen_of (ready (ok u)) = said_ready
seen_of (ready (err e)) = said_error

-- By its history, the last event first: whether the service has said that it is ready, and since
-- then was not called and did not say that it is not.
pub data Licensed : Bool → List Seen → Type 0 where
  at_first : Licensed false []
  after_ready : {b : Bool} {log : List Seen} → Licensed b log → Licensed true (said_ready ∷ log)
  after_pending :
      {b : Bool} {log : List Seen} → Licensed b log → Licensed false (said_pending ∷ log)
  after_error : {b : Bool} {log : List Seen} → Licensed b log → Licensed b (said_error ∷ log)
  after_call : {log : List Seen} → Licensed true log → Licensed false (was_called ∷ log)

pub data Op (Req : Type 0) : Type 0 where
  do_poll : Op Req
  do_call : Req → Op Req

module _ {S E F Req : Type 0} (poll_inner : S → S × Poll (Result E (Unit {0})))
    (call_inner : Req → S → S × F) where
  -- The inner service with its history.
  abbrev pub noting_poll : S × List Seen → (S × List Seen) × Poll (Result E (Unit {0}))
  noting_poll (s, log) = let (s', res) = poll_inner s in ((s', seen_of res ∷ log), res)

  abbrev pub noting_call : Req → S × List Seen → (S × List Seen) × F
  noting_call req (s, log) = let (s', fut) = call_inner req s in ((s', was_called ∷ log), fut)

  abbrev pub step : Op Req → LoadShedService (S × List Seen) → LoadShedService (S × List Seen)
  step do_poll svc = (poll_ready noting_poll svc).0
  step (do_call req) svc = (call noting_call req svc).0

  pub run : List (Op Req) → LoadShedService (S × List Seen) → LoadShedService (S × List Seen)
  run [] svc = svc
  run (op ∷ ops) svc = run ops (step op svc)

  polled-Licensed :
      (res : Poll (Result E (Unit {0}))) (s : S) (log : List Seen) (b : Bool)
      → Licensed b log
      → Licensed
          (polled {S = S × List Seen} res
            (record { inner = (s, seen_of res ∷ log); is_ready = b })).0.is_ready
          (polled {S = S × List Seen} res
            (record { inner = (s, seen_of res ∷ log); is_ready = b })).0.inner.1
  unfolding polled
  polled-Licensed pending s log b h = after_pending h
  polled-Licensed (ready (ok u)) s log b h = after_ready h
  polled-Licensed (ready (err e)) s log b h = after_error h

  abbrev IsLicensed : LoadShedService (S × List Seen) → Type 0
  IsLicensed svc = Licensed svc.is_ready svc.inner.1

  step-Licensed :
      (op : Op Req) (svc : LoadShedService (S × List Seen))
      → IsLicensed svc
      → IsLicensed (step op svc)
  unfolding poll_ready call
  step-Licensed do_poll svc h =
      polled-Licensed (poll_inner svc.inner.0).1 (poll_inner svc.inner.0).0 svc.inner.1 svc.is_ready
        h
  step-Licensed (do_call req) svc h = elim (Bool-cases svc.is_ready) [
    | inl can ↦ rw can (after_call (subst (λ b. Licensed b svc.inner.1) can h))
    | inr not_now ↦ rw not_now (subst (λ b. Licensed b svc.inner.1) not_now h)
  ]

  run_from :
      (ops : List (Op Req)) (svc : LoadShedService (S × List Seen))
      → IsLicensed svc
      → IsLicensed (run ops svc)
  unfolding run
  run_from [] svc h = h
  run_from (op ∷ ops) svc h = run_from ops (step op svc) (step-Licensed op svc h)

  -- Whatever polls and calls the wrapper is given, in any order: each call that reaches the inner
  -- service comes after it said that it is ready, with no other call in between and without its
  -- having said since that it is not; and the wrapper's flag is true exactly if such a call may
  -- come next.
  pub run-Licensed :
      (ops : List (Op Req)) (s : S)
      → Licensed (run ops (new (s, []))).is_ready (run ops (new (s, []))).inner.1
  run-Licensed ops s = run_from ops (new (s, [])) (unfold new in at_first)

  -- What a poll and the calls behind it come to, by what the inner service said in the poll.
  abbrev pub Answers :
      Poll (Result E (Unit {0}))
      → Req
      → LoadShedService S
      → Poll (Result (Overloaded E) (Unit {0}))
      → Type 0
  Answers pending req svc said = (said ≡ ready (ok tt)) × (call call_inner req svc ≡ (svc, shed))
  Answers (ready (ok u)) req svc said =
      (said ≡ ready (ok tt))
      × ((call call_inner req svc).1 ≡ called (call_inner req svc.inner).1)
      × ((next : Req) → (call call_inner next (call call_inner req svc).0).1 ≡ shed)
  Answers (ready (err e)) req svc said = said ≡ ready (err (service e))

  polled-Answers :
      (res : Poll (Result E (Unit {0}))) (req : Req) (svc : LoadShedService S)
      → Answers res req (polled res svc).0 (polled res svc).1
  unfolding polled call
  polled-Answers pending req svc = (refl, refl)
  polled-Answers (ready (ok u)) req svc = (refl, refl, λ next. refl)
  polled-Answers (ready (err e)) req svc = refl

  -- The wrapper never makes its caller wait. Where the inner service has nothing to say in a poll,
  -- the next call is shed, and changes nothing; where it is ready, the next call reaches it, and
  -- the call behind that one is shed; an error of it is passed on.
  pub poll_ready-Answers :
      (req : Req) (svc : LoadShedService S)
      → Answers
          (poll_inner svc.inner).1
          req
          (poll_ready poll_inner svc).0
          (poll_ready poll_inner svc).1
  unfolding poll_ready
  poll_ready-Answers req svc =
      polled-Answers (poll_inner svc.inner).1 req (record svc { inner = (poll_inner svc.inner).0 })
