-- ===== src/Sse/Polling/Laws.antt =====
-- What a client of the response body of sse.rs sees over any number of polls.
use actix_web_lab.Common.{
  ℕ, zero, suc, Bool, true, false, List, [], ◌∷◌, Option, none, some, ◌≡◌, ◌⊎◌, arith, Result, ok,
  err, Poll, pending, ready, subst, refl,
}
use actix_web_lab.Bytes.{Bytes}
use actix_web_lab.Sse.{Event, into_bytes, keep_alive_bytes, Duration, retry_to_bytes}
use actix_web_lab.Sse.Polling.{Sse, poll_next, with_retry_duration}

module _ {S I E : Type 0} (poll_stream : S → S × Poll (Option (Result E Event)))
    (poll_tick : I → I × Bool) where
  -- The answers of so many polls of the inner stream, and of the body.
  unfoldable pub answers : ℕ → S → List (Poll (Option (Result E Event)))
  answers zero s = []
  answers (suc n) s = let (s', a) = poll_stream s in a ∷ answers n s'

  pub outputs : ℕ → Sse S I → List (Poll (Option (Result E Bytes)))
  outputs zero sse = []
  outputs (suc n) sse = let (sse', o) = poll_next poll_stream poll_tick sse in o ∷ outputs n sse'

  -- What the body says when the inner stream has something to say.
  abbrev pub relay : Option (Result E Event) → Poll (Option (Result E Bytes))
  relay none = ready none
  relay (some (ok msg)) = ready (some (ok (into_bytes msg)))
  relay (some (err e)) = ready (some (err e))

  -- An item, an error or the end of the stream is passed on in the poll that gives it. Where the
  -- stream has nothing, the body has nothing, or a keep-alive message if an interval was set up.
  abbrev pub Relays :
      Bool → Poll (Option (Result E Event)) → Poll (Option (Result E Bytes)) → Type 0
  Relays enabled (ready msg) o = o ≡ relay msg
  Relays enabled pending o =
      (o ≡ pending) ⊎ ((enabled ≡ true) × (o ≡ ready (some (ok keep_alive_bytes))))

  abbrev pub RelaysAll :
      Bool → List (Poll (Option (Result E Event))) → List (Poll (Option (Result E Bytes))) → Type 0
  RelaysAll enabled [] [] = Unit
  RelaysAll enabled (a ∷ rest) (o ∷ os) = Relays enabled a o × RelaysAll enabled rest os
  RelaysAll enabled _ _ = ⊥

  abbrev pub is_enabled : Option I → Bool
  is_enabled none = false
  is_enabled (some int) = true

  -- One poll with no retry message to send: the stream is polled once.
  record Polled (sse : Sse S I) : Type 0 where
    relays :
        Relays
          (is_enabled sse.keep_alive)
          (poll_stream sse.stream).1
          (poll_next poll_stream poll_tick sse).1
    stream : (poll_next poll_stream poll_tick sse).0.stream ≡ (poll_stream sse.stream).0
    retry : (poll_next poll_stream poll_tick sse).0.retry_interval ≡ none
    enabled :
        is_enabled (poll_next poll_stream poll_tick sse).0.keep_alive ≡ is_enabled sse.keep_alive

  poll-Polled : (sse : Sse S I) → sse.retry_interval ≡ none → Polled sse
  unfolding poll_next
  poll-Polled sse h = ground arith

  outputs-RelaysAll :
      (n : ℕ) (sse : Sse S I)
      → sse.retry_interval ≡ none
      → RelaysAll (is_enabled sse.keep_alive) (answers n sse.stream) (outputs n sse)
  unfolding answers outputs
  outputs-RelaysAll zero sse h = tt
  outputs-RelaysAll (suc n) sse h =
      let p = poll-Polled sse h in
      let sse' = (poll_next poll_stream poll_tick sse).0 in
      let later = outputs-RelaysAll n sse' p.retry in
      let moved =
        subst (λ s. RelaysAll (is_enabled sse'.keep_alive) (answers n s) (outputs n sse')) p.stream
          later in
      (
        p.relays,
        subst (λ b. RelaysAll b (answers n (poll_stream sse.stream).0) (outputs n sse')) p.enabled
            moved,
      )

  -- With a retry duration set, the first poll gives the retry message and asks the stream for
  -- nothing. Every later poll asks the stream once, and relays its answer: nothing that the stream
  -- gives is lost, delayed, repeated or reordered, and a keep-alive message is sent only in a poll
  -- in which the stream has nothing, and only if an interval was set up.
  pub outputs-with_retry :
      (n : ℕ) (sse : Sse S I) (retry : Duration)
      → (os : List (Poll (Option (Result E Bytes)))) × (outputs
            (suc n)
            (with_retry_duration sse retry)
          ≡ ready (some (ok (retry_to_bytes retry))) ∷ os)
        × RelaysAll (is_enabled sse.keep_alive) (answers n sse.stream) os
  unfolding with_retry_duration poll_next outputs
  outputs-with_retry n sse retry =
      let quiet : Sse S I = record sse { retry_interval = none } in
      (outputs n quiet, refl, outputs-RelaysAll n quiet refl)
