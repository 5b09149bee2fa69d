-- ===== src/Sse/Encoding.antt =====
-- The lines that `into_bytes` of sse.rs writes.
use actix_web_lab.Common.{
  List, [], ◌∷◌, ◌++◌, Option, none, some, map, ◌≡◌, refl, ap, ◌∙◌, sym, append-nil, append_assoc,
}
use actix_web_lab.Text.{text, join, join_rest}
use actix_web_lab.Text.Split.{split}
use actix_web_lab.Bytes.{Bytes}
use actix_web_lab.Bytes.Lines.{newline}
use actix_web_lab.Sse.{
  Event, event_data, comment, prefixed, line_split_with_prefix, option_line, into_bytes,
}

-- Lines, each with its newline, in front of what follows.
abbrev pub unlines : List Bytes → Bytes → Bytes
unlines [] rest = rest
unlines (line ∷ lines) rest = line ++ newline ∷ unlines lines rest

unlines-append :
    (xs ys : List Bytes) (rest : Bytes) → unlines (xs ++ ys) rest ≡ unlines xs (unlines ys rest)
unlines-append [] ys rest = refl
unlines-append (x ∷ xs) ys rest = rw (unlines-append xs ys rest)

pub unlines-rest :
    (xs : List Bytes) (rest more : Bytes) → unlines xs rest ++ more ≡ unlines xs (rest ++ more)
unlines-rest [] rest more = refl
unlines-rest (x ∷ xs) rest more =
    append_assoc x (newline ∷ unlines xs rest) more ∙ rw (unlines-rest xs rest more)

-- Lines closed by an empty one are the lines with a newline between them, and two at the end.
pub unlines-join :
    (line : Bytes) (lines : List Bytes) (rest : Bytes)
    → unlines (line ∷ lines) (newline ∷ rest)
      ≡ join (newline ∷ []) (line ∷ lines) ++ newline ∷ newline ∷ rest
unfolding join
unlines-join line [] rest = rw (append-nil line)
unlines-join line (t ∷ lines) rest =
    ap (λ s. line ++ newline ∷ s) (unlines-join t lines rest)
    ∙ sym (append_assoc line (newline ∷ (t ++ join_rest (newline ∷ []) lines)) _)

prefixed-unlines :
    (prefix : Bytes) (lines : List Bytes) (rest : Bytes)
    → prefixed prefix lines rest ≡ unlines (map (λ line. prefix ++ line) lines) rest
unfolding prefixed
prefixed-unlines prefix [] rest = refl
prefixed-unlines prefix (line ∷ lines) rest =
    rw (prefixed-unlines prefix lines rest) (sym (append_assoc prefix line _))

abbrev pub option_lines : Bytes → Option Bytes → List Bytes
option_lines prefix none = []
option_lines prefix (some value) = (prefix ++ value) ∷ []

option_line-unlines :
    (prefix : Bytes) (o : Option Bytes) (rest : Bytes)
    → option_line prefix o rest ≡ unlines (option_lines prefix o) rest
option_line-unlines prefix none rest = refl
option_line-unlines prefix (some value) rest = sym (append_assoc prefix value (newline ∷ rest))

abbrev pub event_lines : Event → List Bytes
event_lines (event_data d) =
    option_lines (text "id: ") d.id
    ++ (option_lines (text "event: ") d.event
        ++ map (λ line. text "data: " ++ line) (split newline d.content))
event_lines (comment c) = map (λ line. text ": " ++ line) (split newline c)

-- The lines of an event, in order, and an empty line.
pub into_bytes-unlines : (e : Event) → into_bytes e ≡ unlines (event_lines e) (newline ∷ [])
unfolding into_bytes line_split_with_prefix
into_bytes-unlines (event_data d) =
    let ids = option_lines (text "id: ") d.id in
    let events = option_lines (text "event: ") d.event in
    let datas = map (λ line. text "data: " ++ line) (split newline d.content) in
    rw (
      unlines-append ids (events ++ datas) (newline ∷ []),
      unlines-append events datas (newline ∷ []),
      prefixed-unlines (text "data: ") (split newline d.content) (newline ∷ []),
      option_line-unlines (text "event: ") d.event (unlines datas (newline ∷ [])),
      option_line-unlines (text "id: ") d.id (unlines events (unlines datas (newline ∷ []))),
    )
into_bytes-unlines (comment c) = prefixed-unlines (text ": ") (split newline c) (newline ∷ [])
