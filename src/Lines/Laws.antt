-- ===== src/Lines/Laws.antt =====
-- The lines of a body of csv.rs, ndjson.rs and display_stream.rs are its items.
use actix_web_lab.Bytes.Lines.{newline}
use actix_web_lab.Payload.{returns}
use actix_web_lab.Text.Split.{split, Lacks, split-append}
use actix_web_lab.Bytes.{Bytes}
use actix_web_lab.Lines.{
  Stream, write, write_pieces, ended_line, into_chunk_stream, returns, serialize_json_line, newline,
  ChunkStream, waits, map_chunk, written,
}
use actix_web_lab.Common.{
  List, Result, ◌≡◌, ◌∷◌, err, All, ok, some, ◌++◌, none, [], sym, map, append-nil, ap, ◌∙◌,
  append_assoc, refl, Option,
}

-- Polled to its end, a stream gives these items.
pub data Yields {A : Type 0} (stream : Stream A) : stream.State → List A → Type 0 where
  ends : {s : stream.State} → (stream.poll s).1 ≡ returns none → Yields stream s []
  pauses :
      {s : stream.State} {items : List A}
      → (stream.poll s).1 ≡ waits
      → Yields stream (stream.poll s).0 items
      → Yields stream s items
  gives :
      {s : stream.State} {item : A} {items : List A}
      → (stream.poll s).1 ≡ returns (some item)
      → Yields stream (stream.poll s).0 items
      → Yields stream s (item ∷ items)

-- The bytes of the chunks, and the items, that are no failures.
abbrev pub bytes : {E : Type 0} → List (Result E Bytes) → Bytes
bytes [] = []
bytes (err e ∷ chunks) = bytes chunks
bytes (ok chunk ∷ chunks) = chunk ++ bytes chunks

abbrev pub concat : List Bytes → Bytes
concat [] = []
concat (piece ∷ pieces) = piece ++ concat pieces

module _ {T E : Type 0} (pieces : T → List Bytes) where
  -- A failure stays where it is, and an item is a line.
  abbrev pub chunk_of : Result E T → Result E Bytes
  chunk_of (err e) = err e
  chunk_of (ok item) = ok (concat (pieces item) ++ newline ∷ [])

  abbrev pub lines_of : List (Result E T) → List Bytes
  lines_of [] = [] ∷ []
  lines_of (err e ∷ items) = lines_of items
  lines_of (ok item ∷ items) = concat (pieces item) ∷ lines_of items

  -- The serializer writes an item in these pieces, and they are on one line.
  abbrev pub OnOneLine : (T → Option (List Bytes)) → Result E T → Type 0
  OnOneLine to_writer (err e) = Unit
  OnOneLine to_writer (ok item) =
      (to_writer item ≡ some (pieces item)) × Lacks newline (concat (pieces item))

write_pieces-concat : (ps : List Bytes) (into : Bytes) → write_pieces ps into ≡ into ++ concat ps
unfolding write
write_pieces-concat [] into = sym (append-nil into)
write_pieces-concat (p ∷ ps) into =
    write_pieces-concat ps (into ++ p) ∙ append_assoc into p (concat ps)

ended_line-concat : (ps : List Bytes) → ended_line (some ps) ≡ some (concat ps ++ newline ∷ [])
unfolding write
ended_line-concat ps = ap (λ s. some (s ++ newline ∷ [])) (write_pieces-concat ps [])

module _ {T E : Type 0} (to_writer : T → Option (List Bytes)) (pieces : T → List Bytes)
    (stream : Stream (Result E T)) where
  abbrev pub to_line : T → Option Bytes
  to_line = serialize_json_line to_writer

  chunks-Yields :
      {s : stream.State} {items : List (Result E T)}
      → Yields stream s items
      → All (OnOneLine pieces to_writer) items
      → Yields (ChunkStream to_line stream) s (map (chunk_of pieces) items)
  unfolding into_chunk_stream serialize_json_line
  chunks-Yields (ends h) w = ends (ap (map_chunk to_line) h)
  chunks-Yields (pauses h rest) w = pauses (ap (map_chunk to_line) h) (chunks-Yields rest w)
  chunks-Yields (gives {item = err e} h rest) (_, w) =
      gives (ap (map_chunk to_line) h) (chunks-Yields rest w)
  chunks-Yields (gives {item = ok item} h rest) ((writes, _), w) =
      gives
        (ap (map_chunk to_line) h
          ∙ ap (λ ps. written (ended_line ps)) writes
          ∙ ap written (ended_line-concat (pieces item)))
        (chunks-Yields rest w)

  split-bytes :
      (items : List (Result E T))
      → All (OnOneLine pieces to_writer) items
      → split newline (bytes (map (chunk_of pieces) items)) ≡ lines_of pieces items
  unfolding split
  split-bytes [] h = refl
  split-bytes (err e ∷ items) (p, h) = split-bytes items h
  split-bytes (ok item ∷ items) ((_, p), h) =
      ap (split newline) (append_assoc (concat (pieces item)) (newline ∷ []) _)
      ∙ split-append newline (concat (pieces item)) _ p
      ∙ ap (λ ss. concat (pieces item) ∷ ss) (split-bytes items h)

  -- Where the serializer writes each item of the stream, without a newline in its JSON, an NDJSON body that
  -- is polled to its end gives a chunk for each item of its stream, in order, with the failures of the
  -- stream in their places; and the lines of the body are the items' texts, with nothing behind the
  -- last newline.
  pub body-lines :
      {s : stream.State} {items : List (Result E T)}
      → Yields stream s items
      → All (OnOneLine pieces to_writer) items
      → Yields (ChunkStream to_line stream) s (map (chunk_of pieces) items)
        × (split newline (bytes (map (chunk_of pieces) items)) ≡ lines_of pieces items)
  body-lines {items = items} h k = (chunks-Yields h k, split-bytes items k)
