-- ===== src/Middleware/LoadShed/Tests.antt =====
-- The theorems on load_shed.rs at a service that is ready in turns.
use actix_web_lab.Common.{ℕ, List, [], ◌∷◌, Result, ok, err, Poll, pending, ready, ◌+◌}
use actix_web_lab.Middleware.LoadShed.{new}
use actix_web_lab.Middleware.LoadShed.Laws.{Licensed, Op, do_poll, do_call, run, run-Licensed}

-- What the service will say in its polls.
abbrev say :
    List (Poll (Result ℕ (Unit {0})))
    → List (Poll (Result ℕ (Unit {0}))) × Poll (Result ℕ (Unit {0}))
say [] = ([], pending)
say (p ∷ ps) = (ps, p)

abbrev twice : ℕ → List (Poll (Result ℕ (Unit {0}))) → List (Poll (Result ℕ (Unit {0}))) × ℕ
twice req ps = (ps, req + req)

abbrev says : List (Poll (Result ℕ (Unit {0})))
says = ready (ok tt) ∷ (ready (err 5) ∷ (pending ∷ []))

abbrev ops : List (Op ℕ)
ops = do_call 1 ∷ (do_poll ∷ (do_poll ∷ (do_call 2 ∷ (do_call 3 ∷ (do_poll ∷ (do_call 4 ∷ []))))))

run-Licensed_example :
    Licensed
      (run say twice ops (new (says, []))).is_ready
      (run say twice ops (new (says, []))).inner.1
run-Licensed_example = run-Licensed say twice ops says
