-- ===== src/Russe.antt =====
-- russe/src: the decoder of an event stream (decoder.rs, message.rs, event.rs, error.rs).
pub mod Search
pub mod Decoding
pub mod Framing
pub mod Client
use Prim.Native.Nat.{compare}
use actix_web_lab.Common.{
  ℕ, ◌+◌, Bool, true, false, ◌&&◌, ◌||◌, List, [], ◌∷◌, ◌++◌, Option, none, some, ◌==◌, leb,
  if◌then◌else◌, Result, ok, err, take, drop, length,
}
use actix_web_lab.Text.{text}
use actix_web_lab.Text.Decimal.{parse_uint}
use actix_web_lab.Text.Split.{split}
use actix_web_lab.Bytes.{Bytes, is_utf8}
use actix_web_lab.Bytes.Lines.{newline}
use actix_web_lab.Time.{Duration, from_millis, max_u64}
use actix_web_lab.Russe.Search.{Finders, Match, delimiter}

pub record Message : Type 0 where
  pub content : Bytes
  pub event : Option Bytes
  pub retry : Option Duration
  pub id : Option Bytes

pub data Event : Type 0 where
  message : Message → Event
  comment : Bytes → Event
  retry : Duration → Event

-- `Error::Io` carries what the reader of lines says of a line that is no UTF-8.
pub data Error : Type 0 where
  invalid io : Error

-- What a call of `decode` comes to: `Ok(None)`, `Ok(Some(_))`, `Err(_)` or a panic.
pub data Decoded : Type 0 where
  need_more panicked : Decoded
  decoded : Event → Decoded
  failed : Error → Decoded

-- `BufRead::lines` on the pieces between newlines: a carriage return before a newline is dropped,
-- and so is an empty piece at the end.
abbrev pub chop_return : Bytes → Bytes
chop_return [] = []
chop_return (c ∷ []) = if c == b'\r' then [] else c ∷ []
chop_return (c ∷ d ∷ s) = c ∷ chop_return (d ∷ s)

unfoldable pub pieces : List Bytes → List Bytes
pieces [] = []
pieces ([] ∷ []) = []
pieces ((c ∷ s) ∷ []) = (c ∷ s) ∷ []
pieces (s ∷ t ∷ ss) = chop_return s ∷ pieces (t ∷ ss)

-- The variables of `decode` across the lines of one event.
pub record Building : Type 0 where
  pub event : Option Bytes
  pub retry : Option Duration
  pub id : Option Bytes
  pub data_buf : Bytes
  pub message_event : Bool

abbrev pub fresh : Building
fresh = record { event = none; retry = none; id = none; data_buf = []; message_event = false }

-- A round of the loop goes on, or returns from `decode`.
pub data Round : Type 0 where
  go_on : Building → Round
  return : Decoded → Round

abbrev pub add_data : Bytes → Bytes → Bytes
add_data [] input = input
add_data (c ∷ s) input = (c ∷ s) ++ newline ∷ input

-- The match on the pattern's number.
unfoldable pub directive : ℕ → Bytes → Building → Round
directive pattern input b =
    if pattern == 0 || pattern == 1
    then go_on (record b { data_buf = add_data b.data_buf input; message_event = true })
    else if pattern == 2 || pattern == 3
    then go_on (record b { id = some input; message_event = true })
    else if pattern == 4 || pattern == 5
    then go_on (record b { event = some input; message_event = true })
    else if pattern == 6 || pattern == 7
    then elim (parse_uint max_u64 input) [
      | ok millis ↦ go_on (record b { retry = some (from_millis millis) })
      | err _ ↦ return panicked
    ]
    else if pattern == 8 || pattern == 9
    then return (decoded (comment input))
    else return panicked

-- No match, and a match behind the beginning of the line, are panics.
unfoldable pub matched : Option Match → Bytes → Building → Round
matched none line b = return panicked
matched (some m) line b =
    if m.start == 0 then directive m.pattern (drop m.end line) b else return panicked

-- `ByteString::try_from(data_buf)` fails on what is no UTF-8.
unfoldable pub finish_message : Building → Decoded
finish_message b =
    if is_utf8 b.data_buf
    then decoded
        (message (record { content = b.data_buf; event = b.event; retry = b.retry; id = b.id }))
    else panicked

-- What stands behind the loop.
unfoldable pub finish : Building → Option Duration → Decoded
unfolding finish_message
finish b none = finish_message b
finish b (some r) = if b.message_event then finish_message b else decoded (retry r)

abbrev pub continue : Round → (Building → Decoded) → Decoded
continue (go_on b) rest = rest b
continue (return d) rest = d

module _ (finders : Finders) where
  open finders use {event_find, directive_find}

  -- The loop over the lines, from the variables' values.
  unfoldable pub run : List Bytes → Building → Decoded
  run [] b = finish b b.retry
  run (line ∷ lines) b =
      if is_utf8 line
      then continue (matched (directive_find line) line b) (run lines)
      else failed io

  -- The event's bytes and the delimiter leave the buffer before any line is read.
  abbrev pub decode_at : Option ℕ → Bytes → Decoded × Bytes
  decode_at none src = (need_more, src)
  decode_at (some i) src =
      (run (pieces (split newline (take i src))) fresh, drop (length delimiter) (drop i src))

  unfoldable pub decode : Bytes → Decoded × Bytes
  decode src = decode_at (event_find src) src
