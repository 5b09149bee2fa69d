-- ===== src/Fork/BodyLimit.antt =====
-- actix-web-lab/src/body_limit.rs: an extractor that counts the bytes that another one reads.
pub mod Laws
use actix_web_lab.Common.{
  ℕ, zero, suc, ◌+◌, Bool, true, false, ltb, if◌then◌else◌, length, List, [], ◌∷◌, Option, none,
  some, Result, ok, err, Poll, pending, ready,
}
use actix_web_lab.Bytes.{Bytes}
use actix_web_lab.Header.ContentLength.{ContentLength, is_gt}
use actix_web_lab.Payload.{Payload, Step, waits, panics, returns}
use actix_web_lab.Fork.{Copied, copied, failed, Fork, fork_request_payload}
use actix_web_lab.Fork.Reads.{Extractor}

pub data BodyLimitError (Error : Type 0) : Type 0 where
  extractor : Error → BodyLimitError Error
  overflow : BodyLimitError Error

-- `Inner`: the counting payload is the fork's queue.
pub data BodyLimitFut (I Error : Type 0) : Type 0 where
  error : Option (BodyLimitError Error) → BodyLimitFut I Error
  body : I → ℕ → BodyLimitFut I Error

-- The loop that catches up with the payload: the size, what is left in the channel, and whether
-- the limit was passed. It ends at an error, as at a channel with nothing in it.
pub record Caught : Type 0 where
  pub size : ℕ
  pub queue : List Copied
  pub over : Bool

unfoldable pub catch_up : ℕ → List Copied → ℕ → Caught
catch_up limit [] size = record { size = size; queue = []; over = false }
catch_up limit (failed ∷ queue) size = record { size = size; queue = queue; over = false }
catch_up limit (copied c ∷ queue) size =
    let more = catch_up limit queue (size + length c) in
    if ltb limit (size + length c)
    then record { size = size + length c; queue = queue; over = true }
    else more

module _ {E Error : Type 0} (limit : ℕ) (x : Extractor E Error) where
  abbrev pub Fut : Type 0
  Fut = BodyLimitFut x.Future Error

  abbrev pub Polled : Type 0
  Polled = Fut × Fork E × Step (Result (BodyLimitError Error) x.Value)

  -- `from_request`, given what `get_header` says of the content length; a payload that is announced
  -- to be too long is not forked, and that future never looks at it
  unfoldable pub from_request : Option ContentLength → Payload E → x.Future → Fut × Fork E
  from_request none payload i = (body i 0, fork_request_payload payload)
  from_request (some len) payload i =
      if is_gt len limit
      then (error (some overflow), fork_request_payload payload)
      else (body i 0, fork_request_payload payload)

  -- The variant `Body`, once the inner future was polled.
  unfoldable pub poll_body : x.Future → ℕ → Fork E → Poll (Result Error x.Value) → Polled
  poll_body i size f pending = (body i size, f, waits)
  poll_body i size f (ready (err e)) = (body i size, f, returns (err (extractor e)))
  poll_body i size f (ready (ok t)) =
      let caught = catch_up limit f.queue size in
      let f' : Fork E = record f { queue = caught.queue } in
      if caught.over
      then (body i caught.size, f', returns (err overflow))
      else (body i caught.size, f', returns (ok t))

  unfoldable pub poll : Fut → Fork E → Polled
  unfolding poll_body
  poll (error (some e)) f = (error none, f, returns (err e))
  poll (error none) f = (error none, f, panics)
  poll (body i size) f = let (i', (f', res)) = x.poll_future i f in poll_body i' size f' res

  -- What is left of the fork, and what polling it came to.
  abbrev pub Driven : Type 0
  Driven = Fork E × Step (Result (BodyLimitError Error) x.Value)

  abbrev pub again : Polled → (Fut → Fork E → Driven) → Driven
  again (fut, f, waits) k = k fut f
  again (fut, f, panics) k = (f, panics)
  again (fut, f, returns r) k = (f, returns r)

  -- Polls until the future is done, at most so many.
  unfoldable pub drive : ℕ → Fut → Fork E → Driven
  drive zero fut f = (f, waits)
  drive (suc n) fut f = again (poll fut f) (drive n)
