-- ===== src/Body.antt =====
-- actix-web-lab/src/body_channel.rs and body_async_write.rs: response bodies that are sent in parts, over
-- an unbounded channel of tokio, which is a parameter.
pub mod Channel
pub mod Operations
pub mod Fifo
pub mod Writing
mod Tests
use actix_web_lab.Bytes.{Bytes}
use actix_web_lab.Body.Channel.{Unbounded}
use actix_web_lab.Common.{
  List, Result, ok, Option, Poll, ℕ, err, some, length, ready, none, pending,
}

-- What a step of a sender or of the body comes to.
pub data Sent (A : Type 0) : Type 0 where
  done : Result A (Unit {0}) → Sent A
  unreachable : Sent A

-- `Sender::send`, from what the channel's `send` gives back.
abbrev pub send_result : {E : Type 0} → Result (Result E Bytes) (Unit {0}) → Sent Bytes
send_result (ok u) = done (ok u)
send_result (err (ok chunk)) = done (err chunk)
send_result (err (err e)) = unreachable

-- `Sender::close` with an error
abbrev pub close_result : {E : Type 0} → Result (Result E Bytes) (Unit {0}) → Sent E
close_result (ok u) = done (ok u)
close_result (err (ok chunk)) = unreachable
close_result (err (err e)) = done (err e)

module _ {E : Type 0} (mpsc : Unbounded (Result E Bytes)) where
  -- `channel`: a sender and the body
  unfoldable pub channel : mpsc.Chan
  channel = mpsc.unbounded_channel

  unfoldable pub send : Bytes → mpsc.Chan → mpsc.Chan × Sent Bytes
  send chunk c = let (c', r) = mpsc.send (ok chunk) c in (c', send_result r)

  -- `close` takes the sender, which is dropped at its end.
  unfoldable pub close : Option E → mpsc.Chan → mpsc.Chan × Sent E
  close none c = (mpsc.drop_tx c, done (ok tt))
  close (some e) c = let (c', r) = mpsc.send (err e) c in (mpsc.drop_tx c', close_result r)

  -- `poll_next` of the body
  unfoldable pub poll_next : mpsc.Chan → mpsc.Chan × Poll (Option (Result E Bytes))
  poll_next c = mpsc.poll_recv c

-- `Writer`, with the two errors of `poll_write` and of the body
module _ (mpsc : Unbounded Bytes) where
  unfoldable pub writer : mpsc.Chan
  writer = mpsc.unbounded_channel

  abbrev pub write_result : ℕ → Result Bytes (Unit {0}) → Result (Unit {0}) ℕ
  write_result len (ok u) = ok len
  write_result len (err chunk) = err tt

  -- It is always ready.
  unfoldable pub poll_write : Bytes → mpsc.Chan → mpsc.Chan × Result (Unit {0}) ℕ
  poll_write buf c = let (c', r) = mpsc.send buf c in (c', write_result (length buf) r)

  unfoldable pub poll_flush : mpsc.Chan → mpsc.Chan × Result (Unit {0}) (Unit {0})
  poll_flush c = (c, ok tt)

  unfoldable pub poll_shutdown : mpsc.Chan → mpsc.Chan × Result (Unit {0}) (Unit {0})
  poll_shutdown c = (c, ok tt)

  abbrev pub map_ok :
      {IoError : Type 0} → Poll (Option Bytes) → Poll (Option (Result IoError Bytes))
  map_ok pending = pending
  map_ok (ready none) = ready none
  map_ok (ready (some chunk)) = ready (some (ok chunk))

  -- `poll_next` of `BodyStream`
  unfoldable pub poll_stream :
      {IoError : Type 0} → mpsc.Chan → mpsc.Chan × Poll (Option (Result IoError Bytes))
  poll_stream c = let (c', r) = mpsc.poll_recv c in (c', map_ok r)
