-- ===== src/RoundTrip/Reading.antt =====
-- The lines that sse.rs writes for one event, through the loop of decoder.rs.
use actix_web_lab.Common.{
  ℕ, Bool, true, List, [], ◌∷◌, ◌++◌, Option, none, map, ◌≡◌, refl, ap, ◌∙◌, sym, arith, ◌==◌, All,
  append-nil, append_assoc, Bool-cases, inl, subst, inr,
}
use actix_web_lab.Text.{text, join, join_rest, trim_start_by}
use actix_web_lab.Text.Split.{split, Lacks}
use actix_web_lab.Text.Joined.{join-split, split-Lacks, split-cons}
use actix_web_lab.Bytes.{Bytes, IsUtf8}
use actix_web_lab.Bytes.Lines.{newline, split-IsUtf8, IsUtf8-newline}
use actix_web_lab.Russe.Search.{Finders}
use actix_web_lab.Russe.{message, decoded, Building, add_data, finish, run, finish_message}
use actix_web_lab.Russe.Decoding.Fields.{is_utf8_of, run-data}

abbrev pub carriage_return : ℕ
carriage_return = b'\r'

-- A field's value on one line: valid, with no newline and no carriage return.
pub record IsField (value : Bytes) : Type 0 where
  pub valid : IsUtf8 value
  pub no_newline : Lacks newline value
  pub no_return : Lacks carriage_return value

-- Any number of lines: valid, with no carriage return.
pub record IsContent (content : Bytes) : Type 0 where
  pub valid : IsUtf8 content
  pub no_return : Lacks carriage_return content

abbrev pub is_newline : ℕ → Bool
is_newline c = c == newline

-- What the decoder makes of a content: it loses the newlines that the content begins with.
abbrev pub received : Bytes → Bytes
received content = trim_start_by is_newline content

abbrev fold_data : Bytes → List Bytes → Bytes
fold_data buf [] = buf
fold_data buf (line ∷ lines) = fold_data (add_data buf line) lines

fold_data-cons :
    (c : ℕ) (s : Bytes) (lines : List Bytes)
    → fold_data (c ∷ s) lines ≡ (c ∷ s) ++ join_rest (newline ∷ []) lines
fold_data-cons c s [] = sym (append-nil (c ∷ s))
fold_data-cons c s (line ∷ lines) =
    fold_data-cons c (s ++ newline ∷ line) lines ∙ append_assoc (c ∷ s) (newline ∷ line) _

fold_data_nil :
    (lines : List Bytes)
    → All (Lacks newline) lines
    → fold_data [] lines ≡ received (join (newline ∷ []) lines)
unfolding join
fold_data_nil [] h = refl
fold_data_nil ([] ∷ []) h = refl
fold_data_nil ([] ∷ t ∷ lines) (_, h) = fold_data_nil (t ∷ lines) h
fold_data_nil ((c ∷ s) ∷ lines) ((p, _), h) = fold_data-cons c s lines ∙ ground arith

received-IsUtf8 : (s : Bytes) → IsUtf8 s → IsUtf8 (received s)
received-IsUtf8 [] h = refl
received-IsUtf8 (c ∷ s) h = elim (Bool-cases (is_newline c)) [
  | inl same ↦
      let e : c ≡ newline = ground arith in
      rw same (received-IsUtf8 s (IsUtf8-newline [] s (subst (λ d. IsUtf8 (d ∷ s)) e h)).1)
  | inr other ↦ rw other h
]

abbrev building : Option Bytes → Option Bytes → Bytes → Bool → Building
building id event buf any = record {
  event = event;
  retry = none;
  id = id;
  data_buf = buf;
  message_event = any;
}

abbrev data_lines : List Bytes → List Bytes
data_lines lines = map (λ line. text "data: " ++ line) lines

module _ (finders : Finders) (id event : Option Bytes) where
  run-data_lines :
      (lines : List Bytes) (buf : Bytes)
      → All IsUtf8 lines
      → run finders (data_lines lines) (building id event buf true)
        ≡ finish_message (building id event (fold_data buf lines) true)
  run-data_lines [] buf h = unfold run finish in refl
  run-data_lines (line ∷ lines) buf (k, h) =
      run-data finders line k (data_lines lines) (building id event buf true)
      ∙ run-data_lines lines (add_data buf line) h

  finish_received :
      (content : Bytes)
      → IsUtf8 content
      → finish_message (building id event (received content) true)
        ≡ decoded
            (message (record { content = received content; event = event; retry = none; id = id }))
  unfolding finish_message
  finish_received content h = rw (is_utf8_of (received content) (received-IsUtf8 content h))

  run-split :
      (head : Bytes) (tail : List Bytes) (content : Bytes) (any : Bool)
      → split newline content ≡ head ∷ tail
      → IsUtf8 content
      → run finders (data_lines (split newline content)) (building id event [] any)
        ≡ decoded
            (message (record { content = received content; event = event; retry = none; id = id }))
  run-split head tail content any e h =
      let valid = rw e at (split-IsUtf8 content h) in
      let plain = rw e at (split-Lacks newline content) in
      let folded =
        fold_data_nil (head ∷ tail) plain
        ∙ ap (λ ss. received (join (newline ∷ []) ss)) (sym e)
        ∙ ap received (join-split newline content) in
      rw e (
        run-data finders head valid.0 (data_lines tail) (building id event [] any)
        ∙ run-data_lines tail head valid.1
        ∙ ap (λ buf. finish_message (building id event buf true)) folded
        ∙ finish_received content h)

  -- The lines of the content, behind what the other fields have set.
  pub run-content :
      (content : Bytes) (any : Bool)
      → IsUtf8 content
      → run finders (data_lines (split newline content)) (building id event [] any)
        ≡ decoded
            (message (record { content = received content; event = event; retry = none; id = id }))
  run-content content any h =
      let (head, tail, e) = split-cons newline content in run-split head tail content any e h
