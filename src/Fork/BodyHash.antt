-- ===== src/Fork/BodyHash.antt =====
-- actix-hash/src/body_hash.rs: an extractor that hashes the payload while another one reads it. The
-- inner extractor's future is a state with a poll of it, which reads the proxy of the fork; the
-- digest crate is a parameter. The receiver of the copies lives as long as the future.
pub mod Absorb
pub mod Laws
pub mod Completion
pub mod Parts
use actix_web_lab.Common.{
  ℕ, zero, suc, Bool, true, false, ◌||◌, if◌then◌else◌, List, [], ◌∷◌, ◌++◌, Option, none, some,
  Result, ok, err, Poll, pending, ready, ◌≡◌,
}
use actix_web_lab.Bytes.{Bytes}
use actix_web_lab.Payload.{Payload, Step, waits, panics, returns}
use actix_web_lab.Fork.{Copied, copied, failed, Fork, fork_request_payload}
use actix_web_lab.Fork.Reads.{Extractor}

-- `Digest`: feeding it in parts is feeding it the whole.
pub record Digest : Type 1 where
  pub Hasher : Type 0
  pub Output : Type 0
  pub new : Hasher
  pub update : Hasher → Bytes → Hasher
  pub finalize : Hasher → Output
  pub update_nil : (h : Hasher) → update h [] ≡ h
  pub update_append : (h : Hasher) (a b : Bytes) → update (update h a) b ≡ update h (a ++ b)

pub record BodyHash (T Output : Type 0) : Type 0 where
  pub inner : T
  pub hash : Output

-- `inner_fut`, `hash`, `hasher` and `inner` of the variants; the forked payload is the fork's queue.
pub data BodyHashFut (I T Hasher Output : Type 0) : Type 0 where
  payload_none : I → Output → BodyHashFut I T Hasher Output
  inner : I → Hasher → BodyHashFut I T Hasher Output
  inner_done : Option T → Hasher → BodyHashFut I T Hasher Output

-- What the loops that drain the forked payload leave: whether they met an error, or else took all.
pub record Drained (Hasher : Type 0) : Type 0 where
  pub hasher : Hasher
  pub queue : List Copied
  pub stopped : Bool

module _ (digest : Digest) where
  unfoldable pub drain : List Copied → digest.Hasher → Drained digest.Hasher
  drain [] hasher = record { hasher = hasher; queue = []; stopped = false }
  drain (copied c ∷ queue) hasher = drain queue (digest.update hasher c)
  drain (failed ∷ queue) hasher = record { hasher = hasher; queue = queue; stopped = true }

module _ (digest : Digest) {E Error : Type 0} (x : Extractor E Error) where
  abbrev pub Fut : Type 0
  Fut = BodyHashFut x.Future x.Value digest.Hasher digest.Output

  abbrev pub Polled : Type 0
  Polled = Fut × Fork E × Step (Result Error (BodyHash x.Value digest.Output))

  -- `from_request`, given the payload, which may be `Payload::None`
  unfoldable pub from_request : Option (Payload E) → x.Future → Fut × Fork E
  from_request none i = (payload_none i (digest.finalize digest.new), fork_request_payload [])
  from_request (some payload) i = (inner i digest.new, fork_request_payload payload)

  abbrev pub finish : Option x.Value → digest.Hasher → Fork E → Polled
  finish none hasher f = (inner_done none digest.new, f, panics)
  finish (some t) hasher f = (
    inner_done none digest.new,
    f,
    returns (ok (record { inner = t; hash = digest.finalize hasher })),
  )

  -- The variant `InnerDone`: the end of the channel is seen once the proxy is dropped.
  unfoldable pub poll_done : Option x.Value → digest.Hasher → Fork E → Polled
  poll_done t hasher f =
      let d = drain digest f.queue hasher in
      let f' : Fork E = record f { queue = d.queue } in
      if d.stopped
      then (inner_done t d.hasher, f', waits)
      else if f.dropped
      then finish t d.hasher f'
      else (inner_done t d.hasher, f', waits)

  -- The variant `Inner`, once the inner future was polled. Where that is done it is dropped, and
  -- the proxy with it if it holds it.
  unfoldable pub poll_inner_done :
      Bool → x.Future → Fork E → Poll (Result Error x.Value) → digest.Hasher → Polled
  unfolding poll_done
  poll_inner_done owns i f (ready (err e)) hasher = (inner i hasher, f, returns (err e))
  poll_inner_done owns i f (ready (ok t)) hasher =
      poll_done (some t) hasher (record f { dropped = f.dropped || owns })
  poll_inner_done owns i f pending hasher =
      let d = drain digest f.queue hasher in
      let f' : Fork E = record f { queue = d.queue } in
      if d.stopped
      then (inner i d.hasher, f', waits)
      else if f.dropped
      then (inner i d.hasher, f', panics)
      else (inner i d.hasher, f', waits)

  -- The variant `PayloadNone`, once the inner future was polled; that `mem::take` leaves no hash
  -- behind in a future that is done is not modelled.
  unfoldable pub poll_none_done :
      x.Future → Fork E → Poll (Result Error x.Value) → digest.Output → Polled
  poll_none_done i f (ready (err e)) hash = (payload_none i hash, f, returns (err e))
  poll_none_done i f (ready (ok t)) hash =
      (payload_none i hash, f, returns (ok (record { inner = t; hash = hash })))
  poll_none_done i f pending hash = (payload_none i hash, f, waits)

  unfoldable pub poll : Fut → Fork E → Polled
  unfolding poll_inner_done poll_none_done poll_done
  poll (payload_none i hash) f =
      let (i', (f', res)) = x.poll_future i f in poll_none_done i' f' res hash
  poll (inner i hasher) f =
      let (i', (f', res)) = x.poll_future i f in poll_inner_done (x.holds_proxy i') i' f' res hasher
  poll (inner_done t hasher) f = poll_done t hasher f

  -- What is left of the fork, and what polling it came to.
  abbrev pub Driven : Type 0
  Driven = Fork E × Step (Result Error (BodyHash x.Value digest.Output))

  abbrev pub again : Polled → (Fut → Fork E → Driven) → Driven
  again (fut, f, waits) k = k fut f
  again (fut, f, panics) k = (f, panics)
  again (fut, f, returns r) k = (f, returns r)

  -- Polls until the future is done, at most so many.
  unfoldable pub drive : ℕ → Fut → Fork E → Driven
  drive zero fut f = (f, waits)
  drive (suc n) fut f = again (poll fut f) (drive n)
