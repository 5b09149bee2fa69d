-- ===== src/Russe/Framing/Prefixes.antt =====
-- What `decode` of russe/src/decoder.rs does with the beginning of a longer buffer.
use actix_web_lab.Bytes.Lines.{newline}
use actix_web_lab.Text.Split.{split}
use actix_web_lab.Time.{Duration}
use actix_web_lab.Russe.{
  Round, directive, matched, finish, go_on, Match, finish_message, Building, run, decode, return,
  Duration, Decoded, need_more, decode_at, continue, pieces, split, newline, fresh, delimiter,
}
use actix_web_lab.Russe.Search.{first_index, Finders, starts_with, Match, next, delimiter}
use actix_web_lab.Bytes.{Bytes, is_utf8}
use actix_web_lab.Common.{
  List, Option, length, ℕ, ◌≡◌, ◌≤◌, arith, some, ◌≢◌, ◌∷◌, ◌+◌, true, suc, Bool-cases, ◌++◌, [],
  ap, false, inl, Option-cases, ◌==◌, none, inr, drop, ◌&&◌, refl, sym, take, ◌∙◌, take-within,
  drop-within, length-drop, ◌<◌,
}

starts_with-length : (needle s : Bytes) → starts_with needle s ≡ true → length needle ≤ length s
starts_with-length [] s h = omega arith
starts_with-length (c ∷ p) [] h = cc
starts_with-length (c ∷ p) (d ∷ s) h = elim (Bool-cases (c == d)) [
  | inl same ↦ let ih = starts_with-length p s (ground arith) in omega arith
  | inr other ↦ ground arith
]

-- A text that is as long as the needle is decides whether the needle begins it.
starts_with-append :
    (needle s more : Bytes)
    → length needle ≤ length s
    → starts_with needle (s ++ more) ≡ starts_with needle s
starts_with-append [] s more h = refl
starts_with-append (c ∷ p) [] more h = absurd (ground arith)
starts_with-append (c ∷ p) (d ∷ s) more h =
    ap (λ rest. c == d && rest) (starts_with-append p s more (omega arith))

data Found (needle : Bytes) (c : ℕ) (s : Bytes) (i : ℕ) : Type 0 where
  here : starts_with needle (c ∷ s) ≡ true → i ≡ 0 → Found needle c s i
  behind :
      {j : ℕ}
      → starts_with needle (c ∷ s) ≡ false
      → first_index needle s ≡ some j
      → i ≡ suc j
      → Found needle c s i

next-some : (o : Option ℕ) {i : ℕ} → next o ≡ some i → (j : ℕ) × (o ≡ some j) × (i ≡ suc j)
next-some none h = cc
next-some (some j) h = (j, refl, cc)

first_index-Found :
    (needle : Bytes) (c : ℕ) (s : Bytes) {i : ℕ}
    → first_index needle (c ∷ s) ≡ some i
    → Found needle c s i
unfolding first_index
first_index-Found needle c s {i = i} h = elim (Bool-cases (starts_with needle (c ∷ s))) [
  | inl stands ↦ here stands (ground arith)
  | inr fails ↦
      let (j, found, after) = next-some (first_index needle s) {i = i} (ground arith) in
      behind fails found after
]

-- What is found lies within the text.
pub first_index-length :
    (needle s : Bytes) {i : ℕ} → first_index needle s ≡ some i → i + length needle ≤ length s
unfolding first_index
first_index-length needle [] h = cc
first_index-length needle (c ∷ s) {i = i} h = elim (first_index-Found needle c s h) [
  | here stands at ↦ let short = starts_with-length needle (c ∷ s) stands in omega arith
  | behind fails found at ↦ let ih = first_index-length needle s found in omega arith
]

pub first_index-append :
    (needle s more : Bytes) {i : ℕ}
    → first_index needle s ≡ some i
    → first_index needle (s ++ more) ≡ some i
unfolding first_index
first_index-append needle [] more h = cc
first_index-append needle (c ∷ s) more {i = i} h =
    let long = first_index-length needle (c ∷ s) h in
    let same = starts_with-append needle (c ∷ s) more (omega arith) in
    elim (first_index-Found needle c s h) [
      | here stands at ↦ rw (same, stands, at)
      | behind fails found at ↦
          let ih = first_index-append needle s more found in rw (same, fails, ih, at)
    ]

-- A round that returns has an outcome.
abbrev Concludes : Round → Type 0
Concludes (go_on b) = Unit
Concludes (return d) = d ≢ need_more

directive-Concludes :
    (pattern : ℕ) (input : Bytes) (b : Building) → Concludes (directive pattern input b)
unfolding directive
directive-Concludes pattern input b = ground arith

matched-Concludes : (m : Option Match) (line : Bytes) (b : Building) → Concludes (matched m line b)
unfolding matched
matched-Concludes none line b = λ e. cc
matched-Concludes (some m) line b = elim (Bool-cases (m.start == 0)) [
  | inl begins ↦ rw begins (directive-Concludes m.pattern (drop m.end line) b)
  | inr later ↦ rw later (λ e. cc)
]

finish_ends : (b : Building) (r : Option Duration) → finish b r ≢ need_more
unfolding finish finish_message
finish_ends b none = ground arith
finish_ends b (some r) = ground arith

continue_ends :
    (round : Round) (rest : Building → Decoded)
    → Concludes round
    → ((b : Building) → rest b ≢ need_more)
    → continue round rest ≢ need_more
continue_ends (go_on b) rest h k = k b
continue_ends (return d) rest h k = h

module _ (finders : Finders) where
  open finders use {event_find, event_first, directive_find}

  run_ends : (lines : List Bytes) (b : Building) → run finders lines b ≢ need_more
  unfolding run
  run_ends [] b = finish_ends b b.retry
  run_ends (line ∷ lines) b = elim (Bool-cases (is_utf8 line)) [
    | inl whole ↦ rw whole (
        continue_ends (matched (directive_find line) line b) (run finders lines)
          (matched-Concludes (directive_find line) line b) (run_ends lines))
    | inr torn ↦ rw torn (λ e. cc)
  ]

  decode_found :
      {src : Bytes} {o : Option ℕ}
      → event_find src ≡ o
      → decode finders src ≡ decode_at finders o src
  unfolding decode
  decode_found {src = src} e = ap (λ o. decode_at finders o src) e

  -- More bytes behind them change neither the outcome of a call that has one, nor what it takes.
  decode_at-append :
      (i : ℕ) (src more : Bytes)
      → i + 2 ≤ length src
      → decode_at finders (some i) (src ++ more) ≡ (
        run finders (pieces (split newline (take i src))) fresh,
        drop (length delimiter) (drop i src) ++ more,
      )
  decode_at-append i src more h =
      let near = take-within i src more (omega arith) in
      let far = drop-within i src more (omega arith) in
      let cut = drop-within 2 (drop i src) more (omega (arith, length-drop i src)) in
      rw (near, far, cut)

  -- More bytes behind them change neither the outcome of a call that has one, nor what it takes.
  pub decode-append :
      (src more : Bytes) {d : Decoded} {left : Bytes}
      → decode finders src ≡ (d, left)
      → d ≢ need_more
      → decode finders (src ++ more) ≡ (d, left ++ more)
  unfolding decode
  decode-append src more h n = elim (Option-cases (event_find src)) [
    | inl nothing ↦ absurd (n (ap (λ p. p.0) (sym h ∙ decode_found nothing)))
    | inr (i, found) ↦
        let at = sym (event_first src) ∙ found in
        let long = first_index-length delimiter src at in
        let first = event_first (src ++ more) ∙ first_index-append delimiter src more at in
        decode_found first
        ∙ decode_at-append i src more long
        ∙ ap (λ p. (p.0, p.1 ++ more)) (sym (decode_found found) ∙ h)
  ]

  pub need_more-stays :
      (src : Bytes) {left : Bytes} → decode finders src ≡ (need_more, left) → left ≡ src
  unfolding decode
  need_more-stays src h = elim (Option-cases (event_find src)) [
    | inl nothing ↦ ap (λ p. p.1) (sym h ∙ decode_found nothing)
    | inr (i, found) ↦ absurd (
        run_ends (pieces (split newline (take i src))) fresh
          (ap (λ p. p.0) (sym (decode_found found) ∙ h)))
  ]

  -- A call that has an outcome takes the delimiter, at least, from the buffer.
  pub decode-shrinks :
      (src : Bytes) {d : Decoded} {left : Bytes}
      → decode finders src ≡ (d, left)
      → d ≢ need_more
      → length left < length src
  unfolding decode
  decode-shrinks src {left = left} h n = elim (Option-cases (event_find src)) [
    | inl nothing ↦ absurd (n (ap (λ p. p.0) (sym h ∙ decode_found nothing)))
    | inr (i, found) ↦
        let long = first_index-length delimiter src (sym (event_first src) ∙ found) in
        let after : length left ≡ length (drop 2 (drop i src)) =
          ap (λ p. length p.1) (sym h ∙ decode_found found) in
        omega (arith, after, length-drop 2 (drop i src), length-drop i src)
  ]
