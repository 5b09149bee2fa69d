-- ===== src/RoundTrip/EndToEnd.antt =====
-- From the events of a handler to those of a client: the response body of sse.rs, polled by the server,
-- and the reader of reqwest_0_12.rs with the decoder of decoder.rs.
use actix_web_lab.Russe.Framing.{Feeds, waiting}
use actix_web_lab.Time.{Duration, as_millis, max_u64}
use actix_web_lab.Sse.Polling.Laws.{RelaysAll, answers, outputs, outputs-with_retry, is_enabled}
use actix_web_lab.Russe.Search.{Finders, first_index, delimiter}
use actix_web_lab.Bytes.{Bytes}
use actix_web_lab.Sse.{
  Event as SseEvent, comment as sse_comment, keep_alive_bytes, retry_to_bytes, event_data,
  into_bytes,
}
use actix_web_lab.RoundTrip.Stream.{
  Write, data_write, comment_write, write_bytes, retry_write, keep_alive_write, CanWrite, wire,
  received_event, wire-Feeds,
}
use actix_web_lab.Sse.Polling.{Sse, with_retry_duration}
use actix_web_lab.Common.{
  List, ◌≡◌, Poll, ◌∷◌, Option, refl, Result, ready, Bool, [], some, All, ap, ok, ℕ, err, ◌∙◌, ◌++◌,
  pending, inl, ◌≤◌, none, inr, suc, map, sym, append-nil,
}
use actix_web_lab.Russe.Framing

-- What a message is on the wire.
abbrev pub write_of : SseEvent → Write
write_of (event_data d) = data_write d
write_of (sse_comment c) = comment_write c

write_of-bytes : (e : SseEvent) → into_bytes e ≡ write_bytes (write_of e)
write_of-bytes (event_data d) = refl
write_of-bytes (sse_comment c) = refl

module _ {E : Type 0} where
  -- The messages that a stream of events gave, and the chunks that a body did.
  abbrev pub messages : List (Poll (Option (Result E SseEvent))) → List Write
  messages [] = []
  messages (ready (some (ok e)) ∷ rest) = write_of e ∷ messages rest
  messages (ready (some (err e)) ∷ rest) = messages rest
  messages (ready none ∷ rest) = messages rest
  messages (pending ∷ rest) = messages rest

  abbrev pub cons_chunk : Poll (Option (Result E Bytes)) → List Bytes → List Bytes
  cons_chunk (ready (some (ok chunk))) rest = chunk ∷ rest
  cons_chunk (ready (some (err e))) rest = rest
  cons_chunk (ready none) rest = rest
  cons_chunk pending rest = rest

  abbrev pub chunks_of : List (Poll (Option (Result E Bytes))) → List Bytes
  chunks_of [] = []
  chunks_of (o ∷ os) = cons_chunk o (chunks_of os)

  -- The stream does not fail, and its events can be written without loss.
  abbrev pub CanSend : Poll (Option (Result E SseEvent)) → Type 0
  CanSend (ready (some (ok e))) = CanWrite (write_of e)
  CanSend (ready (some (err e))) = ⊥
  CanSend (ready none) = Unit
  CanSend pending = Unit

abbrev pub without_keep_alive : List Write → List Write
without_keep_alive [] = []
without_keep_alive (data_write d ∷ ws) = data_write d ∷ without_keep_alive ws
without_keep_alive (comment_write c ∷ ws) = comment_write c ∷ without_keep_alive ws
without_keep_alive (retry_write r ∷ ws) = retry_write r ∷ without_keep_alive ws
without_keep_alive (keep_alive_write ∷ ws) = without_keep_alive ws

without_keep_alive-write_of :
    (e : SseEvent) (ws : List Write)
    → without_keep_alive (write_of e ∷ ws) ≡ write_of e ∷ without_keep_alive ws
without_keep_alive-write_of (event_data d) ws = refl
without_keep_alive-write_of (sse_comment c) ws = refl

delimiter_nil : first_index delimiter [] ≡ none
unfolding first_index
delimiter_nil = refl

module _ {S I E : Type 0} (poll_stream : S → S × Poll (Option (Result E SseEvent)))
    (poll_tick : I → I × Bool) where
  -- The body's chunks are writes: the messages, with keep-alives between them.
  record Written (said : List (Poll (Option (Result E SseEvent))))
      (os : List (Poll (Option (Result E Bytes)))) : Type 0 where
    writes : List Write
    can : All CanWrite writes
    bytes : Framing.join (chunks_of os) ≡ wire writes
    same : without_keep_alive writes ≡ messages said

  join_chunk :
      {o o' : Poll (Option (Result E Bytes))} (os : List (Poll (Option (Result E Bytes))))
      → o ≡ o'
      → Framing.join (chunks_of (o ∷ os)) ≡ Framing.join (cons_chunk o' (chunks_of os))
  join_chunk os e = ap (λ o. Framing.join (cons_chunk o (chunks_of os))) e

  RelaysAll-Written :
      (enabled : Bool) (said : List (Poll (Option (Result E SseEvent))))
      (os : List (Poll (Option (Result E Bytes))))
      → All CanSend said
      → RelaysAll poll_stream poll_tick enabled said os
      → Written said os
  RelaysAll-Written enabled [] [] c r = record { writes = []; can = tt; bytes = refl; same = refl }
  RelaysAll-Written enabled [] (o ∷ os) c r = absurd r
  RelaysAll-Written enabled (a ∷ said) [] c r = absurd r
  RelaysAll-Written enabled (ready (some (ok e)) ∷ said) (o ∷ os) (p, c) (r, rs) =
      let later = RelaysAll-Written enabled said os c rs in
      record {
        writes = write_of e ∷ later.writes;
        can = (p, later.can);
        bytes =
            join_chunk os r
            ∙ ap (λ b. b ++ Framing.join (chunks_of os)) (write_of-bytes e)
            ∙ ap (λ b. write_bytes (write_of e) ++ b) later.bytes;
        same = without_keep_alive-write_of e later.writes ∙ ap (◌∷◌ (write_of e)) later.same;
      }
  RelaysAll-Written enabled (ready (some (err e)) ∷ said) (o ∷ os) (p, c) (r, rs) = absurd p
  RelaysAll-Written enabled (ready none ∷ said) (o ∷ os) (p, c) (r, rs) =
      let later = RelaysAll-Written enabled said os c rs in
      record {
        writes = later.writes;
        can = later.can;
        bytes = join_chunk os r ∙ later.bytes;
        same = later.same;
      }
  RelaysAll-Written enabled (pending ∷ said) (o ∷ os) (p, c) (inl r, rs) =
      let later = RelaysAll-Written enabled said os c rs in
      record {
        writes = later.writes;
        can = later.can;
        bytes = join_chunk os r ∙ later.bytes;
        same = later.same;
      }
  RelaysAll-Written enabled (pending ∷ said) (o ∷ os) (p, c) (inr (on, r), rs) =
      let later = RelaysAll-Written enabled said os c rs in
      record {
        writes = keep_alive_write ∷ later.writes;
        can = (tt, later.can);
        bytes = join_chunk os r ∙ ap (λ b. keep_alive_bytes ++ b) later.bytes;
        same = later.same;
      }

  -- A server polls the body of a stream of events, with a retry duration, any number of times; the
  -- stream does not fail, and each event that it gives can be written without loss, but for the
  -- newlines that its content begins with, which are lost. A client that
  -- is sent the chunks is given the retry time, and then each event, one for one and in order, with
  -- nothing between them but keep-alive comments; and then it waits with an empty buffer.
  pub outputs-Feeds :
      (finders : Finders) (n : ℕ) (sse : Sse S I) (retry : Duration)
      → as_millis retry ≤ max_u64
      → All CanSend (answers poll_stream poll_tick n sse.stream)
      → (ws : List Write) × Feeds finders
          (waiting [])
          []
          (chunks_of (outputs poll_stream poll_tick (suc n) (with_retry_duration sse retry)))
          (map received_event (retry_write retry ∷ ws))
        × (without_keep_alive ws ≡ messages (answers poll_stream poll_tick n sse.stream))
  outputs-Feeds finders n sse retry fits can =
      let (os, first, relays) = outputs-with_retry poll_stream poll_tick n sse retry in
      let w =
        RelaysAll-Written (is_enabled poll_stream poll_tick sse.keep_alive)
          (answers poll_stream poll_tick n sse.stream) os can relays in
      let chunks =
        ap (λ os. Framing.join (chunks_of os)) first
        ∙ ap (λ b. retry_to_bytes retry ++ b) w.bytes in
      (
        w.writes,
        wire-Feeds finders (retry_write retry ∷ w.writes) []
            (chunks_of (outputs poll_stream poll_tick (suc n) (with_retry_duration sse retry)))
            (fits, w.can) delimiter_nil
            (chunks ∙ sym (append-nil (wire (retry_write retry ∷ w.writes)))),
        w.same,
      )
