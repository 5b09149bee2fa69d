-- ===== src/Bytes/Lines.antt =====
-- Lines of UTF-8 texts: a newline byte stands between characters only.
use actix_web_lab.Common.{
  ℕ, List, [], ◌∷◌, ◌++◌, Option, none, some, ◌≡◌, refl, sym, ◌∙◌, ap, append-nil, All,
}
use actix_web_lab.Text.{join, join_rest}
use actix_web_lab.Text.Split.{split}
use actix_web_lab.Text.Joined.{join-split, split-cons}
use actix_web_lab.Bytes.{Bytes, Utf8, start, utf8_step, utf8_from, IsUtf8, utf8_from-append}

abbrev pub newline : ℕ
newline = b'\n'

newline-step :
    (o : Option Utf8) (t : Bytes)
    → utf8_from o (newline ∷ t) ≡ some start
    → (o ≡ some start) × IsUtf8 t
unfolding utf8_step
newline-step none t h = cc
newline-step (some start) t h = (refl, h)
newline-step (some _) t h = cc

pub IsUtf8-newline : (s t : Bytes) → IsUtf8 (s ++ newline ∷ t) → IsUtf8 s × IsUtf8 t
IsUtf8-newline s t h =
    newline-step (utf8_from (some start) s) t
      (sym (utf8_from-append (some start) s (newline ∷ t)) ∙ h)

IsUtf8-join :
    (s : Bytes) (ss : List Bytes) → IsUtf8 (join (newline ∷ []) (s ∷ ss)) → All IsUtf8 (s ∷ ss)
unfolding join
IsUtf8-join s [] h = (rw append-nil at h, tt)
IsUtf8-join s (t ∷ ss) h =
    let (here, later) = IsUtf8-newline s (t ++ join_rest (newline ∷ []) ss) h in
    (here, IsUtf8-join t ss later)

-- The lines of a valid text are valid.
pub split-IsUtf8 : (s : Bytes) → IsUtf8 s → All IsUtf8 (split newline s)
split-IsUtf8 s h =
    let (head, tail, e) = split-cons newline s in
    rw e (
      IsUtf8-join head tail (
        ap (λ ss. utf8_from (some start) (join (newline ∷ []) ss)) (sym e)
        ∙ rw (join-split newline s) h))
