-- ===== src/Fork.antt =====
-- `fork_request_payload` of actix-web-lab/src/util.rs: a payload that is read in one place and
-- copied to another, over a channel.
pub mod Reads
pub mod BodyHash
pub mod BodyLimit
mod Tests
use actix_web_lab.Common.{
  Bool, true, false, if◌then◌else◌, List, [], ◌∷◌, ◌++◌, Option, none, some, Result, ok, err, Poll,
  pending, ready,
}
use actix_web_lab.Bytes.{Bytes}
use actix_web_lab.Payload.{Payload, chunk, fail, wait}

-- What the channel carries: a copy of a chunk, or an error that says no more than that there was
-- one.
pub data Copied : Type 0 where
  copied : Bytes → Copied
  failed : Copied

-- What the original stream has still to give, the copies that wait in the channel, and whether the
-- proxy, with the sender in it, was dropped.
pub record Fork (E : Type 0) : Type 0 where
  pub orig : Payload E
  pub queue : List Copied
  pub dropped : Bool

unfoldable pub fork_request_payload : {E : Type 0} → Payload E → Fork E
fork_request_payload payload = record { orig = payload; queue = []; dropped = false }

unfoldable pub sent : {E : Type 0} → Payload E → Copied → Fork E → Fork E
sent rest copy f = record f { orig = rest; queue = f.queue ++ copy ∷ [] }

-- A poll of the proxy, which `inspect` makes of the original stream.
unfoldable pub poll_proxy_from :
    {E : Type 0} → Payload E → Fork E → Fork E × Poll (Option (Result E Bytes))
unfolding sent
poll_proxy_from [] f = (f, ready none)
poll_proxy_from (wait ∷ rest) f = (record f { orig = rest }, pending)
poll_proxy_from (chunk c ∷ rest) f = (sent rest (copied c) f, ready (some (ok c)))
poll_proxy_from (fail e ∷ rest) f = (sent rest failed f, ready (some (err e)))

unfoldable pub poll_proxy : {E : Type 0} → Fork E → Fork E × Poll (Option (Result E Bytes))
unfolding poll_proxy_from
poll_proxy f = poll_proxy_from f.orig f
