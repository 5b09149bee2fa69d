-- ===== src/Lines.antt =====
-- actix-web-lab/src/csv.rs, ndjson.rs and display_stream.rs: bodies with one line for each item of a
-- stream; and what they use of util.rs. What writes an item, serde_json, the csv crate or Display, is
-- a parameter: the pieces that it writes, in turn, or none where it fails.
pub mod Laws
pub mod Responding
mod Tests
use actix_web_lab.Bytes.Lines.{newline}
use actix_web_lab.Payload.{Step, returns, panics, waits}
use actix_web_lab.Future.{Machine}
use actix_web_lab.Bytes.{Bytes}
use actix_web_lab.Common.{List, Option, Result, ℕ, ◌∷◌, some, ◌++◌, [], ok, err, length, none}

-- `MutWriter::write`: the buffer, and how much was written
unfoldable pub write : Bytes → Bytes → Bytes × ℕ
write buf into = (into ++ buf, length buf)

-- The writes of a serializer, one after another
abbrev pub write_pieces : List Bytes → Bytes → Bytes
write_pieces [] into = into
write_pieces (piece ∷ pieces) into = write_pieces pieces (write piece into).0

abbrev pub ended_line : Option (List Bytes) → Option Bytes
ended_line none = none
ended_line (some pieces) = some (write (newline ∷ []) (write_pieces pieces [])).0

-- No bytes are a panic, that of an `unwrap`.
unfoldable pub serialize_json_line : {T : Type 0} → (T → Option (List Bytes)) → T → Option Bytes
serialize_json_line to_writer item = ended_line (to_writer item)

unfoldable pub write_display : {T : Type 0} → (T → Option (List Bytes)) → T → Option Bytes
write_display fmt item = ended_line (fmt item)

abbrev pub flushed : Option (List Bytes) → Option Bytes
flushed none = none
flushed (some pieces) = some (write_pieces pieces [])

-- A `csv::Writer` of its own for each item, which ends the row itself.
unfoldable pub serialize_csv_row : {T : Type 0} → (T → Option (List Bytes)) → T → Option Bytes
serialize_csv_row serialize item = flushed (serialize item)

-- A stream: each poll of it gives an item, or says that there are no more.
abbrev pub Stream : Type 0 → Type 1
Stream T = Machine (Option T)

abbrev pub map_ok : {T : Type 0} → Step (Option T) → Step (Option (Result ⊥ T))
map_ok waits = waits
map_ok panics = panics
map_ok (returns none) = returns none
map_ok (returns (some item)) = returns (some (ok item))

-- `InfallibleStream`
unfoldable pub infallible :
    {T : Type 0} → (stream : Stream T) → stream.State → stream.State × Step (Option (Result ⊥ T))
infallible stream s = ((stream.poll s).0, map_ok (stream.poll s).1)

abbrev pub InfallibleStream : {T : Type 0} → Stream T → Stream (Result ⊥ T)
InfallibleStream stream = record { State = stream.State; poll = infallible stream }

abbrev pub written : {E : Type 0} → Option Bytes → Step (Option (Result E Bytes))
written none = panics
written (some chunk) = returns (some (ok chunk))

abbrev pub map_chunk :
    {T E : Type 0}
    → (T → Option Bytes)
    → Step (Option (Result E T))
    → Step (Option (Result E Bytes))
map_chunk line waits = waits
map_chunk line panics = panics
map_chunk line (returns none) = returns none
map_chunk line (returns (some (err e))) = returns (some (err e))
map_chunk line (returns (some (ok item))) = written (line item)

-- `into_chunk_stream` of the three, with what makes a line of an item
unfoldable pub into_chunk_stream :
    {T E : Type 0}
    → (T → Option Bytes)
    → (stream : Stream (Result E T)) → stream.State
    → stream.State × Step (Option (Result E Bytes))
into_chunk_stream line stream s = ((stream.poll s).0, map_chunk line (stream.poll s).1)

abbrev pub ChunkStream :
    {T E : Type 0} → (T → Option Bytes) → Stream (Result E T) → Stream (Result E Bytes)
ChunkStream line stream = record { State = stream.State; poll = into_chunk_stream line stream }
