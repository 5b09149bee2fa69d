-- ===== src/Signature/Channel.antt =====
-- The payload of request_signature.rs as the inner extractor sees it: a proxy that copies each chunk
-- into a channel.
use actix_web_lab.Bytes.{Bytes}
use actix_web_lab.Payload.{Payload, chunk, fail, wait}
use actix_web_lab.Common.{
  List, Poll, true, [], Option, Result, Bool, false, if◌then◌else◌, ready, ◌++◌, none, ◌∷◌, pending,
  some, ok, err,
}

-- What the stream has still to give, the chunks that wait in the channel, whether the sender in the
-- proxy was dropped, whether the receiver in the task was, and whether `unwrap` of a send failed.
pub record Tap (E : Type 0) : Type 0 where
  pub orig : Payload E
  pub queue : List Bytes
  pub dropped : Bool
  pub closed : Bool
  pub panicked : Bool

unfoldable pub tapped : {E : Type 0} → Payload E → Tap E
tapped payload = record {
  orig = payload;
  queue = [];
  dropped = false;
  closed = false;
  panicked = false;
}

unfoldable pub send_chunk : {E : Type 0} → Payload E → Bytes → Tap E → Tap E
send_chunk rest c f =
    if f.closed
    then record f { orig = rest; panicked = true }
    else record f { orig = rest; queue = f.queue ++ c ∷ [] }

-- A poll of the proxy: a chunk is sent on, and an error is not.
unfoldable pub poll_tap_from :
    {E : Type 0} → Payload E → Tap E → Tap E × Poll (Option (Result E Bytes))
poll_tap_from [] f = (f, ready none)
poll_tap_from (wait ∷ rest) f = (record f { orig = rest }, pending)
poll_tap_from (chunk c ∷ rest) f = (send_chunk rest c f, ready (some (ok c)))
poll_tap_from (fail e ∷ rest) f = (record f { orig = rest }, ready (some (err e)))

unfoldable pub poll_tap : {E : Type 0} → Tap E → Tap E × Poll (Option (Result E Bytes))
poll_tap f = poll_tap_from f.orig f

-- What whoever holds the proxy can do: poll it, and drop it.
pub data Taps {E : Type 0} : Tap E → Tap E → Type 0 where
  rests : {f : Tap E} → Taps f f
  polls : {f g : Tap E} → Taps (poll_tap f).0 g → Taps f g
  drops : {f g : Tap E} → Taps (record f { dropped = true }) g → Taps f g

-- The inner extractor, which is given the proxy: a poll of its future, and whether a future has the
-- proxy in it.
pub record Inner (E Error : Type 0) : Type 1 where
  pub Future : Type 0
  pub Value : Type 0
  pub poll_future : Future → Tap E → Future × (Tap E × Poll (Result Error Value))
  pub holds_proxy : Future → Bool
  pub only_taps : (fut : Future) (f : Tap E) → Taps f (poll_future fut f).1.0
