-- ===== src/RoundTrip/Stream.antt =====
-- A whole stream: the writes of sse.rs one after another, and the calls of `decode` of decoder.rs
-- that take it apart.
use actix_web_lab.Russe.Framing.Laws.{Feeds-joined}
use actix_web_lab.Russe.Framing.{Feeds, waiting, waits, gives}
use actix_web_lab.Common.{
  ◌≤◌, List, [], ◌∷◌, ◌++◌, none, map, ◌≡◌, ap, ◌∙◌, sym, All, append_assoc, refl,
}
use actix_web_lab.Text.{text}
use actix_web_lab.Text.Split.{split}
use actix_web_lab.Text.Joined.{split-cons}
use actix_web_lab.Bytes.{Bytes}
use actix_web_lab.Bytes.Lines.{newline}
use actix_web_lab.Time.{Duration, from_millis, as_millis, max_u64}
use actix_web_lab.Sse
use actix_web_lab.Sse.{Data, event_data, into_bytes, retry_to_bytes, keep_alive_bytes}
use actix_web_lab.Russe
use actix_web_lab.Russe.{Event, message, retry, Decoded, need_more, decoded, decode}
use actix_web_lab.Russe.Search.{Finders, delimiter, first_index}
use actix_web_lab.Russe.Framing
use actix_web_lab.RoundTrip.Reading.{IsContent, received}
use actix_web_lab.RoundTrip.Writes.{
  IsWritable, decode-into_bytes, decode-into_bytes_comment, decode-retry_to_bytes,
  decode-keep_alive_bytes,
}

-- What `poll_next` of sse.rs may write.
pub data Write : Type 0 where
  data_write : Data → Write
  comment_write : Bytes → Write
  retry_write : Duration → Write
  keep_alive_write : Write

abbrev pub write_bytes : Write → Bytes
write_bytes (data_write d) = into_bytes (event_data d)
write_bytes (comment_write c) = into_bytes (Sse.comment c)
write_bytes (retry_write r) = retry_to_bytes r
write_bytes keep_alive_write = keep_alive_bytes

abbrev pub wire : List Write → Bytes
wire [] = []
wire (w ∷ ws) = write_bytes w ++ wire ws

abbrev pub CanWrite : Write → Type 0
CanWrite (data_write d) = IsWritable d
CanWrite (comment_write c) = IsContent c
CanWrite (retry_write r) = as_millis r ≤ max_u64
CanWrite keep_alive_write = Unit

abbrev first_line : List Bytes → Bytes
first_line [] = []
first_line (line ∷ lines) = line

-- The event that a client is given for a write.
abbrev pub received_event : Write → Event
received_event (data_write d) =
    message (record { content = received d.content; event = d.event; retry = none; id = d.id })
received_event (comment_write c) = Russe.comment (first_line (split newline c))
received_event (retry_write r) = retry (from_millis (as_millis r))
received_event keep_alive_write = Russe.comment (text "keep-alive")

module _ (finders : Finders) where
  decode-write :
      (w : Write) (rest : Bytes)
      → CanWrite w
      → decode finders (write_bytes w ++ rest) ≡ (decoded (received_event w), rest)
  decode-write (data_write d) rest h = decode-into_bytes finders d rest h
  decode-write (comment_write c) rest h =
      let (line, lines, e) = split-cons newline c in
      decode-into_bytes_comment finders c rest h line lines e
      ∙ ap (λ ss. (decoded (Russe.comment (first_line ss)), rest)) (sym e)
  decode-write (retry_write r) rest h = decode-retry_to_bytes finders r rest h
  decode-write keep_alive_write rest h = decode-keep_alive_bytes finders rest

  decode_none :
      (src : Bytes) → first_index delimiter src ≡ none → decode finders src ≡ (need_more, src)
  unfolding decode
  decode_none src h = rw (finders.event_first src, h)

  wire-Feeds_whole :
      (ws : List Write) (rest : Bytes)
      → All CanWrite ws
      → first_index delimiter rest ≡ none
      → Feeds finders (waiting rest) (wire ws ++ rest) [] (map received_event ws)
  wire-Feeds_whole [] rest h k = waits (decode_none rest k) refl
  wire-Feeds_whole (w ∷ ws) rest (p, h) k =
      gives (rw append_assoc (decode-write w (wire ws ++ rest) p)) (wire-Feeds_whole ws rest h k)

  -- Any sequence of writes that lose nothing but the newlines that a content begins with, cut into
  -- chunks in any way, is read as its events, one for one and in order, also where an unfinished event
  -- (with no delimiter in it) stands behind them: that stays in the buffer.
  pub wire-Feeds :
      (ws : List Write) (rest : Bytes) (cut : List Bytes)
      → All CanWrite ws
      → first_index delimiter rest ≡ none
      → Framing.join cut ≡ wire ws ++ rest
      → Feeds finders (waiting rest) [] cut (map received_event ws)
  wire-Feeds ws rest cut h k same =
      let (joined, split) =
        Feeds-joined finders {end = waiting rest} cut [] (map received_event ws) in
      split (rw same (wire-Feeds_whole ws rest h k))
