-- ===== src/Russe/Decoding/Delimiter.antt =====
-- Where `decode` of decoder.rs cuts an event off, and the lines that it reads of it.
use actix_web_lab.Common.{
  ℕ, suc, ◌+◌, List, [], ◌∷◌, ◌++◌, Option, none, some, ◌≡◌, ◌≢◌, refl, ap, ◌∙◌, arith, All, length,
  length-append, take-append, drop-append, append-nil, append_assoc, All-imp,
}
use actix_web_lab.Text.{join, join_rest}
use actix_web_lab.Text.Split.{Lacks}
use actix_web_lab.Text.Joined.{split-join}
use actix_web_lab.Bytes.{Bytes}
use actix_web_lab.Bytes.Lines.{newline}
use actix_web_lab.Russe.Search.{Finders, delimiter, next, first_index}
use actix_web_lab.Russe.{chop_return, pieces, run, fresh, decode_at, decode}

-- A line that an encoder writes: not empty, and with no newline in it.
abbrev pub IsLine : Bytes → Type 0
IsLine line = (line ≢ []) × Lacks newline line

abbrev pub shift : ℕ → Option ℕ → Option ℕ
shift n none = none
shift n (some i) = some (n + i)

shift-next : (n : ℕ) (o : Option ℕ) → shift (suc n) o ≡ next (shift n o)
shift-next n none = refl
shift-next n (some i) = ground arith

-- Nothing is found inside a line.
first_index-line :
    (line s : Bytes)
    → Lacks newline line
    → first_index delimiter (line ++ s) ≡ shift (length line) (first_index delimiter s)
unfolding first_index
first_index-line [] s h = ground arith
first_index-line (c ∷ line) s (p, h) =
    ground (arith, first_index-line line s h, shift-next (length line) (first_index delimiter s))

-- Nor at a newline between two lines.
first_index-newline :
    (line more s : Bytes)
    → IsLine line
    → first_index delimiter (newline ∷ ((line ++ more) ++ s))
      ≡ next (first_index delimiter ((line ++ more) ++ s))
unfolding first_index
first_index-newline [] more s (ne, h) = absurd (ne refl)
first_index-newline (c ∷ line) more s (ne, (p, h)) = ground arith

abbrev pub joined : Bytes → List Bytes → Bytes
joined line lines = join (newline ∷ []) (line ∷ lines)

abbrev pub terminated : Bytes → Bytes
terminated rest = newline ∷ (newline ∷ rest)

first_index-joined :
    (line : Bytes) (lines : List Bytes) (rest : Bytes)
    → IsLine line
    → All IsLine lines
    → first_index delimiter (joined line lines ++ terminated rest)
      ≡ some (length (joined line lines))
unfolding join
first_index-joined line [] rest h hs =
    rw (append-nil line)
      (first_index-line line (terminated rest) h.1 ∙ unfold first_index in ground arith)
first_index-joined line (t ∷ lines) rest h (k, hs) =
    rw (append_assoc line (newline ∷ joined t lines) (terminated rest)) (
      first_index-line line (newline ∷ (joined t lines ++ terminated rest)) h.1
      ∙ ap (shift (length line)) (
          first_index-newline t (join_rest (newline ∷ []) lines) (terminated rest) k
          ∙ ap next (first_index-joined t lines rest k hs))
      ∙ ap some (omega (arith, length-append line (newline ∷ joined t lines))))

-- What an encoder writes ends in no carriage return that `lines` would drop.
abbrev pub IsWhole : Bytes → Type 0
IsWhole line = IsLine line × (chop_return line ≡ line)

pieces_whole : (lines : List Bytes) → All IsWhole lines → pieces lines ≡ lines
unfolding pieces
pieces_whole [] h = refl
pieces_whole ([] ∷ lines) (((ne, _), _), _) = absurd (ne refl)
pieces_whole ((c ∷ s) ∷ []) h = refl
pieces_whole ((c ∷ s) ∷ t ∷ lines) ((_, e), h) = rw (e, pieces_whole (t ∷ lines) h)

All-IsLine : (lines : List Bytes) → All IsWhole lines → All IsLine lines
All-IsLine = All-imp IsWhole IsLine (λ l h. h.0)

All-Lacks : (lines : List Bytes) → All IsWhole lines → All (Lacks newline) lines
All-Lacks = All-imp IsWhole (Lacks newline) (λ l h. h.0.1)

module _ (finders : Finders) where
  decode_at-length :
      (line : Bytes) (lines : List Bytes) (rest : Bytes)
      → All IsWhole (line ∷ lines)
      → decode_at finders (some (length (joined line lines))) (joined line lines ++ terminated rest)
        ≡ (run finders (line ∷ lines) fresh, rest)
  decode_at-length line lines rest (h, hs) = rw (
    take-append (joined line lines) (terminated rest),
    drop-append (joined line lines) (terminated rest),
    split-join newline line lines h.0.1 (All-Lacks lines hs),
    pieces_whole (line ∷ lines) (h, hs),
  )

  -- Lines behind one another, closed by an empty one, are read in their order, and the buffer
  -- keeps exactly what stands behind them.
  pub decode-lines :
      (line : Bytes) (lines : List Bytes) (rest : Bytes)
      → All IsWhole (line ∷ lines)
      → decode finders (joined line lines ++ terminated rest)
        ≡ (run finders (line ∷ lines) fresh, rest)
  unfolding decode
  decode-lines line lines rest (h, hs) =
      rw
        (
          finders.event_first (joined line lines ++ terminated rest),
          first_index-joined line lines rest h.0 (All-IsLine lines hs),
        )
        (decode_at-length line lines rest (h, hs))
