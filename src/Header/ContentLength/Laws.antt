-- ===== src/Header/ContentLength/Laws.antt =====
-- Round trip and bound of content_length.rs.
use actix_web_lab.Common.{ℕ, ◌≤◌, true, false, ◌≡◌, arith, ok, All-imp, ok->>=, some}
use actix_web_lab.Text.{Text, is_whitespace, trim}
use actix_web_lab.Text.Decimal.{
  is_digit, show, show_digits, parse_uint, parse_uint-show, parse_uint-le,
}
use actix_web_lab.Text.Trim.{trim_of_solid}
use actix_web_lab.Header.ContentLength.{
  max_usize, ContentLength, from_str, display, parse, try_into_value, RawValues,
}

digit_solid : (c : ℕ) → is_digit c ≡ true → is_whitespace c ≡ false
digit_solid c h = ground arith

-- A length that fits 64 bits is read back from its own text.
pub from_str-display_length :
    (c : ContentLength) → c.into_inner ≤ max_usize → from_str (display c) ≡ ok c
unfolding from_str display
from_str-display_length c h =
    let solid =
      All-imp (λ d. is_digit d ≡ true) (λ d. is_whitespace d ≡ false) digit_solid
        (show c.into_inner) (show_digits c.into_inner) in
    rw (trim_of_solid (show c.into_inner) solid, parse_uint-show max_usize c.into_inner h)

-- Whatever the header holds, a length that is read fits 64 bits.
pub from_str-le : (val : Text) {c : ContentLength} → from_str val ≡ ok c → c.into_inner ≤ max_usize
unfolding from_str
from_str-le val {c} e =
    let (len, parsed, same) = ok->>= _ (parse_uint max_usize (trim val)) e in
    let le : len ≤ max_usize = parse_uint-le max_usize (trim val) parsed in ground arith

-- And so is one from the value that is made of it.
pub parse-try_into_value :
    (raw : RawValues) (c : ContentLength)
    → c.into_inner ≤ max_usize
    → parse raw (some (try_into_value raw c)) ≡ ok c
unfolding parse try_into_value display
parse-try_into_value raw c h =
    raw.read_from_usize from_str c.into_inner c (from_str-display_length c h)
