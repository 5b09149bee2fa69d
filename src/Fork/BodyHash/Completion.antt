-- ===== src/Fork/BodyHash/Completion.antt =====
-- When the future of body_hash.rs is done.
use actix_web_lab.Common.{
  ready, some, ◌||◌, true, arith, false, List, [], ◌∷◌, ok, ◌≡◌, refl, true, ready, some,
}
use actix_web_lab.Payload.{returns}
use actix_web_lab.Fork.{Copied, copied, failed, Fork}
use actix_web_lab.Fork.Reads.{Extractor}
use actix_web_lab.Fork.BodyHash.{Digest, inner, drain, poll_done, poll_inner_done, poll}
use actix_web_lab.Fork.BodyHash.Absorb.{absorb, drain_whole}

-- No copy of an error.
abbrev pub IsWhole : List Copied → Type 0
IsWhole [] = Unit
IsWhole (copied c ∷ q) = IsWhole q
IsWhole (failed ∷ q) = ⊥

module _ (digest : Digest) {E Error : Type 0} (x : Extractor E Error) where
  drain-IsWhole :
      (q : List Copied) (h : digest.Hasher) → IsWhole q → (drain digest q h).stopped ≡ false
  unfolding drain
  drain-IsWhole [] h w = refl
  drain-IsWhole (copied c ∷ q) h w = drain-IsWhole q (digest.update h c) w
  drain-IsWhole (failed ∷ q) h w = absurd w

  poll_done-returns :
      (t : x.Value) (hasher : digest.Hasher) (f : Fork E)
      → f.dropped ≡ true
      → IsWhole f.queue
      → (poll_done digest x (some t) hasher f).2
        ≡ returns (ok (record { inner = t; hash = digest.finalize (absorb digest hasher f.queue) }))
  unfolding poll_done
  poll_done-returns t hasher f h w =
      let whole = drain-IsWhole f.queue hasher w in
      rw (whole, h, drain_whole digest f.queue hasher whole) refl

  -- Once the inner extractor, which holds the proxy, is done in a poll and no copy of an error
  -- waits in the channel, the future is done in the same poll, with what the inner extractor gave
  -- and with the hash of what was fed before and of all that waited in the channel.
  pub poll-returns :
      (i done : x.Future) (hasher : digest.Hasher) (f g : Fork E) (t : x.Value)
      → x.poll_future i f ≡ (done, (g, ready (ok t)))
      → x.holds_proxy done ≡ true
      → IsWhole g.queue
      → (poll digest x (inner i hasher) f).2
        ≡ returns (ok (record { inner = t; hash = digest.finalize (absorb digest hasher g.queue) }))
  unfolding poll poll_inner_done
  poll-returns i done hasher f g t e owns w =
      rw (e, owns)
        (poll_done-returns t hasher (record g { dropped = g.dropped || true }) (ground arith) w)
