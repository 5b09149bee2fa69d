-- ===== src/RoundTrip/Tests.antt =====
-- The theorems of the event stream at concrete events.
use actix_web_lab.RoundTrip.EndToEnd.{
  chunks_of, without_keep_alive, messages, outputs-Feeds, CanSend,
}
use actix_web_lab.Sse.Polling.Laws.{answers, outputs}
use actix_web_lab.Sse.{
  Event as SseEvent, comment as sse_comment, Data, event_data, into_bytes, retry_to_bytes,
  keep_alive_bytes,
}
use actix_web_lab.Sse.Polling.{Sse, with_retry_duration}
use actix_web_lab.Russe.Framing.Outcome.{Feeds-settles}
use actix_web_lab.Russe.Framing.{Feeds, Ending, waiting, join}
use actix_web_lab.Common.{
  List, [], ◌∷◌, ◌++◌, none, some, map, ◌≡◌, refl, arith, ℕ, take, drop, Poll, Bool, ready, Option,
  true, ok, Result, pending, All,
}
use actix_web_lab.Text.{text}
use actix_web_lab.Text.Split.{split}
use actix_web_lab.Bytes.{Bytes, IsUtf8, utf8_step}
use actix_web_lab.Bytes.Lines.{newline}
use actix_web_lab.Time.{from_secs, as_millis}
use actix_web_lab.Russe.{message, retry, decoded, panicked, decode, Event}
use actix_web_lab.Russe.Search.{naive, delimiter, first_index}
use actix_web_lab.Russe.Decoding.Delimiter.{joined, terminated, IsWhole}
use actix_web_lab.RoundTrip.Reading.{IsContent}
use actix_web_lab.RoundTrip.Writes.{IsWritable, decode-into_bytes, decode-keep_alive_bytes}
use actix_web_lab.RoundTrip.Stream.{
  Write, data_write, comment_write, retry_write, keep_alive_write, wire, received_event, wire-Feeds,
}
use actix_web_lab.RoundTrip.Faults.{decode-panics}
use actix_web_lab.Sse
use actix_web_lab.Russe

-- An event with every field, whose content begins with an empty line.
abbrev greeting : Data
greeting = record {
  id = some (text "7");
  event = some (text "greet");
  content = text "\nhello\nworld";
}

greeting-IsWritable : IsWritable greeting
unfolding utf8_step
greeting-IsWritable = record {
  id = record { valid = refl; no_newline = omega arith; no_return = omega arith };
  event = record { valid = refl; no_newline = omega arith; no_return = omega arith };
  content = record { valid = refl; no_return = omega arith };
}

decode-into_bytes_example : decode naive (into_bytes (event_data greeting) ++ text "data: a") ≡ (
  decoded (
      message (record {
        content = text "hello\nworld";
        event = some (text "greet");
        retry = none;
        id = some (text "7");
      })),
  text "data: a",
)
decode-into_bytes_example = decode-into_bytes naive greeting (text "data: a") greeting-IsWritable

abbrev two_lines : Bytes
two_lines = text "one\ntwo"

two_lines-IsContent : IsContent two_lines
unfolding utf8_step
two_lines-IsContent = record { valid = refl; no_return = omega arith }

two_lines-split : split newline two_lines ≡ text "one" ∷ (text "two" ∷ [])
unfolding split
two_lines-split = refl

decode-keep_alive_bytes_example :
    decode naive (keep_alive_bytes ++ text ": ")
    ≡ (decoded (Russe.comment (text "keep-alive")), text ": ")
decode-keep_alive_bytes_example = decode-keep_alive_bytes naive (text ": ")

abbrev four_writes : List Write
four_writes =
    retry_write (from_secs 3)
    ∷ (data_write greeting ∷ (keep_alive_write ∷ (comment_write two_lines ∷ [])))

unfinished : first_index delimiter (text "data: a\n") ≡ none
unfolding first_index
unfinished = refl

-- The bytes of the four writes in chunks of ten, and one in the middle of an event.
abbrev cut_at : List ℕ → Bytes → List Bytes
cut_at [] s = s ∷ []
cut_at (n ∷ ns) s = take n s ∷ cut_at ns (drop n s)

abbrev in_chunks : List Bytes
in_chunks = cut_at (3 ∷ 10 ∷ 1 ∷ 40 ∷ []) (wire four_writes ++ text "data: a\n")

wire-Feeds_example :
    Feeds naive (waiting (text "data: a\n")) [] in_chunks (map received_event four_writes)
unfolding as_millis retry_to_bytes actix_web_lab.Text.Decimal.show into_bytes
    Sse.line_split_with_prefix Sse.prefixed split keep_alive_bytes
wire-Feeds_example =
    wire-Feeds naive four_writes (text "data: a\n") in_chunks
      (omega arith, (greeting-IsWritable, (tt, (two_lines-IsContent, tt)))) unfinished refl

Feeds-settles_example :
    (end : Ending) × (events : List Event) × Feeds naive end [] in_chunks events
    × ((cut : List Bytes) (other : Ending) (others : List Event)
        → join cut ≡ join in_chunks
        → Feeds naive other [] cut others
        → (other ≡ end) × (others ≡ events))
Feeds-settles_example = Feeds-settles naive in_chunks

-- A line with a field that is not known, which the standard has clients ignore.
abbrev unknown : Bytes
unknown = text "foo: bar"

unknown-IsWhole : IsWhole unknown
unknown-IsWhole = (((λ e. cc), omega arith), refl)

unknown-IsUtf8 : IsUtf8 unknown
unfolding utf8_step
unknown-IsUtf8 = refl

decode-panics_example :
    decode naive (joined unknown [] ++ terminated (text "data: a\n\n"))
    ≡ (panicked, text "data: a\n\n")
decode-panics_example =
    decode-panics naive unknown [] (text "data: a\n\n") (unknown-IsWhole, tt) unknown-IsUtf8
      (ground arith)

-- A stream of events that gives what a list holds, and an interval that is always due.
abbrev Polls : Type 0
Polls = List (Poll (Option (Result ⊥ SseEvent)))

abbrev poll_list : Polls → Polls × Poll (Option (Result ⊥ SseEvent))
poll_list [] = ([], ready none)
poll_list (a ∷ rest) = (rest, a)

abbrev always_due : Unit {0} → Unit {0} × Bool
always_due int = (int, true)

abbrev two_events : Sse Polls (Unit {0})
two_events = record {
  stream =
      ready (some (ok (event_data greeting)))
      ∷ (pending ∷ (ready (some (ok (sse_comment two_lines))) ∷ []));
  keep_alive = some tt;
  retry_interval = none;
}

two_events-CanSend : All CanSend (answers poll_list always_due 4 two_events.stream)
unfolding answers
two_events-CanSend = (greeting-IsWritable, (tt, (two_lines-IsContent, (tt, tt))))

outputs-Feeds_example :
    (ws : List Write) × Feeds naive
      (waiting [])
      []
      (chunks_of (outputs poll_list always_due 5 (with_retry_duration two_events (from_secs 3))))
      (map received_event (retry_write (from_secs 3) ∷ ws))
    × (without_keep_alive ws ≡ messages (answers poll_list always_due 4 two_events.stream))
unfolding as_millis
outputs-Feeds_example =
    outputs-Feeds poll_list always_due naive 4 two_events (from_secs 3) (omega arith)
      two_events-CanSend

both_messages :
    messages (answers poll_list always_due 4 two_events.stream)
    ≡ data_write greeting ∷ (comment_write two_lines ∷ [])
unfolding answers
both_messages = refl
