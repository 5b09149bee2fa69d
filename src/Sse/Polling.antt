-- ===== src/Sse/Polling.antt =====
-- `Sse` of actix-web-lab/src/sse.rs as a response body: its builders and `poll_next`. The inner
-- stream and the interval belong to other crates: each is a state with a poll of it. The wake-up
-- that follows a retry message is not modelled.
pub mod Laws
use actix_web_lab.Common.{
  ℕ, zero, suc, Bool, true, false, List, [], ◌∷◌, Option, none, some, if◌then◌else◌, Result, ok,
  err, Poll, pending, ready,
}
use actix_web_lab.Bytes.{Bytes}
use actix_web_lab.Time.{Duration}
use actix_web_lab.Sse.{Event, into_bytes, retry_to_bytes, keep_alive_bytes}

pub record Sse (S I : Type 0) : Type 0 where
  pub stream : S
  pub keep_alive : Option I
  pub retry_interval : Option Duration

module _ {S I : Type 0} where
  unfoldable pub from_stream : S → Sse S I
  from_stream stream = record { stream = stream; keep_alive = none; retry_interval = none }

  -- `int` is the interval of the given period.
  unfoldable pub with_keep_alive : Sse S I → I → Sse S I
  with_keep_alive sse int = record sse { keep_alive = some int }

  unfoldable pub with_retry_duration : Sse S I → Duration → Sse S I
  with_retry_duration sse retry = record sse { retry_interval = some retry }

module _ {S I E : Type 0} (poll_stream : S → S × Poll (Option (Result E Event)))
    (poll_tick : I → I × Bool) where
  abbrev pub Answer : Type 0
  Answer = Poll (Option (Result E Bytes))

  -- The last `if let`: an interval that is due.
  unfoldable pub poll_keep_alive : Option I → Sse S I → Sse S I × Answer
  poll_keep_alive none sse = (sse, pending)
  poll_keep_alive (some int) sse =
      let (int', due) = poll_tick int in
      (
        record sse { keep_alive = some int' },
        if due then ready (some (ok keep_alive_bytes)) else pending,
      )

  unfoldable pub answer : Poll (Option (Result E Event)) → Sse S I → Sse S I × Answer
  unfolding poll_keep_alive
  answer (ready (some (ok msg))) sse = (sse, ready (some (ok (into_bytes msg))))
  answer (ready (some (err e))) sse = (sse, ready (some (err e)))
  answer (ready none) sse = (sse, ready none)
  answer pending sse = poll_keep_alive sse.keep_alive sse

  unfoldable pub poll_from : Option Duration → Sse S I → Sse S I × Answer
  unfolding answer
  poll_from (some retry) sse =
      (record sse { retry_interval = none }, ready (some (ok (retry_to_bytes retry))))
  poll_from none sse =
      let (stream', msg) = poll_stream sse.stream in answer msg (record sse { stream = stream' })

  unfoldable pub poll_next : Sse S I → Sse S I × Answer
  unfolding poll_from
  poll_next sse = poll_from sse.retry_interval sse
