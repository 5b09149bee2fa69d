-- ===== src/Lines/Tests.antt =====
-- The theorem on bodies of lines, and the other two kinds of lines.
use actix_web_lab.Text.Split.{split}
use actix_web_lab.Bytes.Lines.{newline}
use actix_web_lab.Text.{text}
use actix_web_lab.Bytes.{Bytes}
use actix_web_lab.Lines.Laws.{
  Yields, lines_of, gives, pauses, to_line, ends, chunk_of, bytes, body-lines,
}
use actix_web_lab.Lines.{
  Stream, write_display, serialize_csv_row, Bytes, ChunkStream, write, waits, returns, newline,
}
use actix_web_lab.Payload.{Step, returns}
use actix_web_lab.Common.{
  List, Result, ℕ, Option, ok, ◌≡◌, some, ◌∷◌, [], err, map, refl, none, suc, zero,
}

-- A stream that gives what a list holds, with a wait in front of each.
data Source : Type 0 where
  rested tired : List (Result ℕ ℕ) → Source

abbrev poll_source : Source → Source × Step (Option (Result ℕ ℕ))
poll_source (tired items) = (rested items, waits)
poll_source (rested []) = (rested [], returns none)
poll_source (rested (item ∷ items)) = (tired items, returns (some item))

abbrev source : Stream (Result ℕ ℕ)
source = record { State = Source; poll = poll_source }

-- A number is written in two pieces.
abbrev in_brackets : ℕ → List Bytes
in_brackets n = text "[" ∷ (n ∷ b']' ∷ []) ∷ []

-- A serializer that fails on zero
abbrev brackets_but_zero : ℕ → Option (List Bytes)
brackets_but_zero zero = none
brackets_but_zero (suc n) = some (in_brackets (suc n))

abbrev three_items : List (Result ℕ ℕ)
three_items = ok b'1' ∷ (err 7 ∷ (ok b'2' ∷ []))

three_items-Yields : Yields source (rested three_items) three_items
three_items-Yields =
    gives refl (pauses refl (gives refl (pauses refl (gives refl (pauses refl (ends refl))))))

body-lines_example :
    Yields
      (ChunkStream (to_line brackets_but_zero in_brackets source) source)
      (rested three_items)
      (map (chunk_of in_brackets) three_items)
    × (split newline (bytes (map (chunk_of in_brackets) three_items))
        ≡ lines_of in_brackets three_items)
body-lines_example = body-lines brackets_but_zero in_brackets source three_items-Yields (
  (refl, ((λ e. cc), ((λ e. cc), ((λ e. cc), tt)))),
  (tt, ((refl, ((λ e. cc), ((λ e. cc), ((λ e. cc), tt)))), tt)),
)

lines_there : lines_of in_brackets three_items ≡ text "[1]" ∷ (text "[2]" ∷ ([] ∷ []))
lines_there = refl

display_line : write_display (λ n. some (in_brackets n)) b'3' ≡ some (text "[3]\n")
unfolding write_display write
display_line = refl

csv_row :
    serialize_csv_row (λ n. some (text "a," ∷ (n ∷ newline ∷ []) ∷ [])) b'3' ≡ some (text "a,3\n")
unfolding serialize_csv_row write
csv_row = refl
