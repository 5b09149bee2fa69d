-- ===== src/Text/Decimal.antt =====
-- `Display` and `FromStr` of the unsigned integers (Rust's `core::num`), at any width.
use actix_web_lab.Common.{
  ℕ, zero, suc, ◌+◌, ◌-◌, ◌*◌, ◌/◌, ◌%◌, ◌≤◌, ◌<◌, Bool, true, ◌&&◌, [], ◌∷◌, ◌≡◌, ◌≢◌, refl, ◌∙◌,
  inl, inr, arith, ltb, leb, ◌==◌, if◌then◌else◌, Bool-cases, Result, ok, err, All,
}
use actix_web_lab.Text.{Text}

-- `IntErrorKind`, as far as an unsigned parse gives it
pub data IntError : Type 0 where
  empty invalid_digit pos_overflow : IntError

abbrev pub is_digit : ℕ → Bool
is_digit c = leb b'0' c && leb c b'9'

show_from : ℕ → ℕ → Text → Text
show_from zero n rest = rest
show_from (suc f) n rest =
    let more = show_from f (n / 10) ((b'0' + n % 10) ∷ rest) in
    if ltb n 10 then (b'0' + n) ∷ rest else more

-- More digits than the number are never needed.
unfoldable pub show : ℕ → Text
unfolding show_from
show n = show_from (suc n) n []

-- The loop of `from_str_radix`: the digit is read before the overflow is told.
scan : ℕ → ℕ → Text → Result IntError ℕ
scan max n [] = ok n
scan max n (c ∷ s) =
    let next = n * 10 + (c - b'0') in
    let rest = scan max next s in
    if is_digit c then (if leb next max then rest else err pos_overflow) else err invalid_digit

-- The sign is read off first: a lone one is no digit, and `-` is none either.
unfoldable pub parse_uint : ℕ → Text → Result IntError ℕ
unfolding scan
parse_uint max [] = err empty
parse_uint max (c ∷ []) = scan max 0 (c ∷ [])
parse_uint max (c ∷ d ∷ s) = if c == b'+' then scan max 0 (d ∷ s) else scan max 0 (c ∷ d ∷ s)

scan-show_from :
    (max f n : ℕ) (rest : Text)
    → n < f
    → n ≤ max
    → scan max 0 (show_from f n rest) ≡ scan max n rest
unfolding scan show_from
scan-show_from max zero n rest h k = absurd (omega arith)
scan-show_from max (suc f) n rest h k = elim (Bool-cases (ltb n 10)) [
  | inl small ↦ ground arith
  | inr large ↦ rw large (
      scan-show_from max f (n / 10) ((b'0' + n % 10) ∷ rest) (ground arith) (omega arith)
      ∙ ground arith)
]

show_from_digits :
    (f n : ℕ) (rest : Text)
    → All (λ c. is_digit c ≡ true) rest
    → All (λ c. is_digit c ≡ true) (show_from f n rest)
unfolding show_from
show_from_digits zero n rest h = h
show_from_digits (suc f) n rest h =
    ground (arith, show_from_digits f (n / 10) ((b'0' + n % 10) ∷ rest))

pub show_digits : (n : ℕ) → All (λ c. is_digit c ≡ true) (show n)
unfolding show scan
show_digits n = show_from_digits (suc n) n [] tt

show_from-ne-nil : (f n : ℕ) (rest : Text) → rest ≢ [] → show_from f n rest ≢ []
unfolding show_from
show_from-ne-nil zero n rest h = h
show_from-ne-nil (suc f) n rest h =
    ground (arith, show_from-ne-nil f (n / 10) ((b'0' + n % 10) ∷ rest))

pub show-ne-nil : (n : ℕ) → show n ≢ []
unfolding show scan
show-ne-nil n = ground (arith, show_from-ne-nil n (n / 10) ((b'0' + n % 10) ∷ []))

parse_uint_of_digits :
    (max : ℕ) (s : Text) → s ≢ [] → All (λ c. is_digit c ≡ true) s → parse_uint max s ≡ scan max 0 s
unfolding parse_uint
parse_uint_of_digits max [] h k = absurd (h refl)
parse_uint_of_digits max (c ∷ []) h k = refl
parse_uint_of_digits max (c ∷ d ∷ s) h k = ground arith

-- What is printed is read back, at every width that holds it.
pub parse_uint-show : (max n : ℕ) → n ≤ max → parse_uint max (show n) ≡ ok n
unfolding show scan
parse_uint-show max n h =
    parse_uint_of_digits max (show n) (show-ne-nil n) (show_digits n)
    ∙ scan-show_from max (suc n) n [] (omega arith) h

scan-le : (max n : ℕ) (s : Text) {m : ℕ} → n ≤ max → scan max n s ≡ ok m → m ≤ max
unfolding scan
scan-le max n [] h e = ground arith
scan-le max n (c ∷ s) {m} h e = ground (arith, scan-le max (n * 10 + (c - b'0')) s {m = m})

-- What is read fits the width.
pub parse_uint-le : (max : ℕ) (s : Text) {m : ℕ} → parse_uint max s ≡ ok m → m ≤ max
unfolding parse_uint
parse_uint-le max [] e = ground arith
parse_uint-le max (c ∷ []) e = scan-le max 0 (c ∷ []) (omega arith) e
parse_uint-le max (c ∷ d ∷ s) e = elim (Bool-cases (c == b'+')) [
  | inl plus ↦ scan-le max 0 (d ∷ s) (omega arith) (ground arith)
  | inr other ↦ scan-le max 0 (c ∷ d ∷ s) (omega arith) (ground arith)
]
