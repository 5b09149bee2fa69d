-- ===== src/Sse.antt =====
-- actix-web-lab/src/sse.rs: the event stream that a server writes. A `ByteString` is its bytes,
-- which are valid UTF-8 by its type.
pub mod Encoding
pub mod Polling
pub mod Responding
mod Tests
use actix_web_lab.Common.{ℕ, List, [], ◌∷◌, ◌++◌, Option, none, some}
use actix_web_lab.Text.{text}
use actix_web_lab.Text.Decimal.{show}
use actix_web_lab.Text.Split.{split}
use actix_web_lab.Bytes.{Bytes}
use actix_web_lab.Bytes.Lines.{newline}
use actix_web_lab.Time.{Duration, as_millis}

-- The struct `Data`; its field `data` is `content`.
pub record Data : Type 0 where
  pub id : Option Bytes
  pub event : Option Bytes
  pub content : Bytes

pub data Event : Type 0 where
  event_data : Data → Event
  comment : Bytes → Event

-- `Data::new`, and the setters `set_data`, `id` (`set_id`) and `event` (`set_event`)
unfoldable pub new : Bytes → Data
new content = record { id = none; event = none; content = content }

unfoldable pub set_data : Data → Bytes → Data
set_data d content = record d { content = content }

unfoldable pub set_id : Data → Bytes → Data
set_id d id = record d { id = some id }

unfoldable pub set_event : Data → Bytes → Data
set_event d event = record d { event = some event }

-- The loop over the lines of a field, behind which stands what is written later.
unfoldable pub prefixed : Bytes → List Bytes → Bytes → Bytes
prefixed prefix [] rest = rest
prefixed prefix (line ∷ lines) rest = prefix ++ (line ++ newline ∷ prefixed prefix lines rest)

unfoldable pub line_split_with_prefix : Bytes → Bytes → Bytes → Bytes
line_split_with_prefix prefix content rest = prefixed prefix (split newline content) rest

abbrev pub option_line : Bytes → Option Bytes → Bytes → Bytes
option_line prefix none rest = rest
option_line prefix (some value) rest = prefix ++ (value ++ newline ∷ rest)

unfoldable pub into_bytes : Event → Bytes
into_bytes (event_data d) = option_line (text "id: ") d.id (
    option_line (text "event: ") d.event
      (line_split_with_prefix (text "data: ") d.content (newline ∷ [])))
into_bytes (comment c) = line_split_with_prefix (text ": ") c (newline ∷ [])

unfoldable pub retry_to_bytes : Duration → Bytes
retry_to_bytes retry = text "retry: " ++ (show (as_millis retry) ++ newline ∷ newline ∷ [])

unfoldable pub keep_alive_bytes : Bytes
keep_alive_bytes = text ": keep-alive\n\n"
