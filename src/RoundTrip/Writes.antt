-- ===== src/RoundTrip/Writes.antt =====
-- What sse.rs writes to a client, write by write, and what decoder.rs gives for it.
use actix_web_lab.Time.{Duration, as_millis, from_millis, max_u64}
use actix_web_lab.Text.Decimal.{is_digit, show, show_digits}
use actix_web_lab.Common.{
  ℕ, true, false, List, [], ◌∷◌, ◌++◌, Option, none, some, map, ◌≡◌, ◌≢◌, refl, ap, ◌∙◌, arith, All,
  All-append, OptionAll, All-imp, ◌≤◌,
}
use actix_web_lab.Text.{text}
use actix_web_lab.Text.Split.{split, Lacks, split-All}
use actix_web_lab.Text.Joined.{split-cons, split-Lacks}
use actix_web_lab.Bytes.{Bytes, IsUtf8, utf8_step}
use actix_web_lab.Bytes.Lines.{newline, split-IsUtf8}
use actix_web_lab.Sse
use actix_web_lab.Sse.{Data, event_data, into_bytes, retry_to_bytes, keep_alive_bytes}
use actix_web_lab.Sse.Encoding.{
  unlines, unlines-rest, unlines-join, option_lines, event_lines, into_bytes-unlines,
}
use actix_web_lab.Russe.Search.{Finders}
use actix_web_lab.Russe
use actix_web_lab.Russe.{Event, message, decoded, chop_return, fresh, run, decode, retry, finish}
use actix_web_lab.Russe.Decoding.Delimiter.{IsWhole, decode-lines}
use actix_web_lab.Russe.Decoding.Fields.{run-id, run-event, run-comment, run-retry}
use actix_web_lab.RoundTrip.Reading.{carriage_return, IsField, IsContent, received, run-content}

chop_return-Lacks : (s : Bytes) → Lacks carriage_return s → chop_return s ≡ s
chop_return-Lacks [] h = refl
chop_return-Lacks (c ∷ []) (p, h) = ground arith
chop_return-Lacks (c ∷ d ∷ s) (p, h) = ap (◌∷◌ c) (chop_return-Lacks (d ∷ s) h)

-- A prefix that is a constant of the source, in front of a value without line breaks.
module _ (c : ℕ) (prefix : Bytes) (plain : Lacks newline (c ∷ prefix))
    (solid : Lacks carriage_return (c ∷ prefix)) where
  whole :
      (value : Bytes)
      → Lacks newline value
      → Lacks carriage_return value
      → IsWhole ((c ∷ prefix) ++ value)
  whole value h k = (
    (ground arith, All-append (λ d. d ≢ newline) (c ∷ prefix) value plain h),
    chop_return-Lacks ((c ∷ prefix) ++ value)
        (All-append (λ d. d ≢ carriage_return) (c ∷ prefix) value solid k),
  )

  IsWhole-lines :
      (lines : List Bytes)
      → All (Lacks newline) lines
      → All (Lacks carriage_return) lines
      → All IsWhole (map (λ line. (c ∷ prefix) ++ line) lines)
  IsWhole-lines [] h k = tt
  IsWhole-lines (line ∷ lines) (p, h) (q, k) = (whole line p q, IsWhole-lines lines h k)

  IsWhole-option :
      (o : Option Bytes) → OptionAll IsField o → All IsWhole (option_lines (c ∷ prefix) o)
  IsWhole-option none h = tt
  IsWhole-option (some value) h = (whole value h.no_newline h.no_return, tt)

  IsWhole-split :
      (content : Bytes)
      → IsContent content
      → All IsWhole (map (λ line. (c ∷ prefix) ++ line) (split newline content))
  IsWhole-split content h =
      IsWhole-lines (split newline content) (split-Lacks newline content)
        (split-All (λ d. d ≢ carriage_return) newline content h.no_return)

decode-unlines :
    (finders : Finders) (lines : List Bytes) (rest : Bytes)
    → lines ≢ []
    → All IsWhole lines
    → decode finders (unlines lines (newline ∷ []) ++ rest) ≡ (run finders lines fresh, rest)
decode-unlines finders [] rest ne h = absurd (ne refl)
decode-unlines finders (line ∷ lines) rest ne h =
    rw (unlines-rest (line ∷ lines) (newline ∷ []) rest, unlines-join line lines rest)
      (decode-lines finders line lines rest h)

map-split-ne-nil : (f : Bytes → Bytes) (content : Bytes) → map f (split newline content) ≢ []
map-split-ne-nil f content = let (head, tail, e) = split-cons newline content in rw e (λ h. cc)

append-ne-nil : (xs ys : List Bytes) → ys ≢ [] → (xs ++ ys) ≢ []
append-ne-nil [] ys h = h
append-ne-nil (x ∷ xs) ys h = λ e. cc

-- What the encoder can write without loss.
pub record IsWritable (d : Data) : Type 0 where
  pub id : OptionAll IsField d.id
  pub event : OptionAll IsField d.event
  pub content : IsContent d.content

module _ (finders : Finders) where
  abbrev sent : Bytes → Option Bytes → Option Bytes → Event
  sent content event id =
      message (record { content = received content; event = event; retry = none; id = id })

  run-data_event :
      (id event : Option Bytes) (content : Bytes)
      → OptionAll IsField id
      → OptionAll IsField event
      → IsUtf8 content
      → run finders
          (event_lines (event_data (record { id = id; event = event; content = content })))
          fresh
        ≡ decoded (sent content event id)
  run-data_event none none content h k v = run-content finders none none content false v
  run-data_event none (some event) content h k v =
      run-event finders event k.valid _ fresh ∙ run-content finders none (some event) content true v
  run-data_event (some id) none content h k v =
      run-id finders id h.valid _ fresh ∙ run-content finders (some id) none content true v
  run-data_event (some id) (some event) content h k v =
      run-id finders id h.valid _ fresh
      ∙ run-event finders event k.valid _ _
      ∙ run-content finders (some id) (some event) content true v

  -- A data event that is writable is read back with its id, its name and its content, less the
  -- newlines that the content begins with; and the buffer keeps exactly what was written behind it.
  pub decode-into_bytes :
      (d : Data) (rest : Bytes)
      → IsWritable d
      → decode finders (into_bytes (event_data d) ++ rest) ≡ (
        decoded (
            message
              (record { content = received d.content; event = d.event; retry = none; id = d.id })),
        rest,
      )
  decode-into_bytes d rest w =
      let ids = option_lines (text "id: ") d.id in
      let events = option_lines (text "event: ") d.event in
      let datas = map (λ line. text "data: " ++ line) (split newline d.content) in
      rw (into_bytes-unlines (event_data d)) (
        decode-unlines finders (ids ++ (events ++ datas)) rest
          (append-ne-nil ids (events ++ datas) (
            append-ne-nil events datas
              (map-split-ne-nil (λ line. text "data: " ++ line) d.content)))
          (All-append IsWhole ids (events ++ datas)
            (IsWhole-option b'i' (text "d: ") (omega arith) (omega arith) d.id w.id)
            (All-append IsWhole events datas
              (IsWhole-option b'e' (text "vent: ") (omega arith) (omega arith) d.event w.event)
              (IsWhole-split b'd' (text "ata: ") (omega arith) (omega arith) d.content w.content)))
        ∙ ap (λ r. (r, rest)) (run-data_event d.id d.event d.content w.id w.event w.content.valid))

  -- A comment is read back by its first line alone.
  pub decode-into_bytes_comment :
      (c rest : Bytes)
      → IsContent c
      → (line : Bytes) (lines : List Bytes) → split newline c ≡ line ∷ lines
      → decode finders (into_bytes (Sse.comment c) ++ rest) ≡ (decoded (Russe.comment line), rest)
  decode-into_bytes_comment c rest h line lines e = rw (into_bytes-unlines (Sse.comment c)) (
      decode-unlines finders (event_lines (Sse.comment c)) rest
        (map-split-ne-nil (λ l. text ": " ++ l) c)
        (IsWhole-split b':' (text " ") (omega arith) (omega arith) c h)
      ∙ ap (λ r. (r, rest))
          (rw e (run-comment finders line (rw e at (split-IsUtf8 c h.valid)).0 _ fresh)))

  digit_plain : (c : ℕ) → is_digit c ≡ true → c ≢ newline
  digit_plain c h = ground arith

  digit_solid : (c : ℕ) → is_digit c ≡ true → c ≢ carriage_return
  digit_solid c h = ground arith

  finish_retry :
      (millis : ℕ)
      → run finders [] (record fresh { retry = some (from_millis millis) })
        ≡ decoded (retry (from_millis millis))
  unfolding run finish
  finish_retry millis = refl

  run-retry_alone :
      (millis : ℕ)
      → millis ≤ max_u64
      → run finders ((text "retry: " ++ show millis) ∷ []) fresh
        ≡ decoded (retry (from_millis millis))
  run-retry_alone millis h = run-retry finders millis h [] fresh ∙ finish_retry millis

  -- A retry recommendation whose milliseconds fit 64 bits is read back in whole milliseconds.
  pub decode-retry_to_bytes :
      (r : Duration) (rest : Bytes)
      → as_millis r ≤ max_u64
      → decode finders (retry_to_bytes r ++ rest)
        ≡ (decoded (retry (from_millis (as_millis r))), rest)
  unfolding retry_to_bytes
  decode-retry_to_bytes r rest h =
      let number = show (as_millis r) in
      let digits = show_digits (as_millis r) in
      decode-unlines finders ((text "retry: " ++ number) ∷ []) rest (λ e. cc)
        (
          whole b'r' (text "etry: ") (omega arith) (omega arith) number
              (All-imp (λ c. is_digit c ≡ true) (λ c. c ≢ newline) digit_plain number digits)
              (All-imp (λ c. is_digit c ≡ true) (λ c. c ≢ carriage_return) digit_solid number
                digits),
          tt,
        )
      ∙ ap (λ d. (d, rest)) (run-retry_alone (as_millis r) h)

  pub decode-keep_alive_bytes :
      (rest : Bytes)
      → decode finders (keep_alive_bytes ++ rest)
        ≡ (decoded (Russe.comment (text "keep-alive")), rest)
  unfolding keep_alive_bytes
  decode-keep_alive_bytes rest =
      decode-unlines finders ((text ": keep-alive") ∷ []) rest (λ e. cc)
        (
          whole b':' (text " ") (omega arith) (omega arith) (text "keep-alive") (omega arith)
              (omega arith),
          tt,
        )
      ∙ ap (λ d. (d, rest))
          (run-comment finders (text "keep-alive") (unfold utf8_step in refl) [] fresh)
