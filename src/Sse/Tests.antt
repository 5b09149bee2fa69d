-- ===== src/Sse/Tests.antt =====
-- The theorem on the response body of sse.rs, at a stream that has two answers.
use actix_web_lab.Common.{
  Bool, true, false, List, [], ◌∷◌, Option, none, some, ◌≡◌, Result, ok, Poll, pending, ready,
}
use actix_web_lab.Text.{text}
use actix_web_lab.Bytes.{Bytes}
use actix_web_lab.Time.{from_secs}
use actix_web_lab.Sse.{Event, comment, retry_to_bytes}
use actix_web_lab.Sse.Polling.{Sse, with_retry_duration}
use actix_web_lab.Sse.Polling.Laws.{answers, outputs, RelaysAll, outputs-with_retry}

-- A stream that has its answers in a list.
abbrev given :
    List (Poll (Option (Result ⊥ Event)))
    → List (Poll (Option (Result ⊥ Event))) × Poll (Option (Result ⊥ Event))
given [] = ([], ready none)
given (a ∷ rest) = (rest, a)

-- An interval that is due at every second poll.
abbrev every_second : Bool → Bool × Bool
every_second true = (false, true)
every_second false = (true, false)

abbrev two_answers : List (Poll (Option (Result ⊥ Event)))
two_answers = pending ∷ (ready (some (ok (comment (text "hi")))) ∷ [])

abbrev kept_alive : Sse (List (Poll (Option (Result ⊥ Event)))) Bool
kept_alive = record { stream = two_answers; keep_alive = some true; retry_interval = none }

outputs-with_retry_example :
    (os : List (Poll (Option (Result ⊥ Bytes)))) × (outputs given every_second 4
        (with_retry_duration kept_alive (from_secs 5))
      ≡ ready (some (ok (retry_to_bytes (from_secs 5)))) ∷ os)
    × RelaysAll given every_second true (answers given every_second 3 two_answers) os
outputs-with_retry_example = outputs-with_retry given every_second 3 kept_alive (from_secs 5)
