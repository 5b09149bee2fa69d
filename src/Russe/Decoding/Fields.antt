-- ===== src/Russe/Decoding/Fields.antt =====
-- One line of an event, by its field's name (decoder.rs, the body of the loop).
use actix_web_lab.Common.{
  ap, ◌∙◌, [], All, All-imp, ltb, ◌≤◌, true, List, ◌∷◌, ◌++◌, some, ◌≡◌, refl, ℕ, arith,
}
use actix_web_lab.Text.{text}
use actix_web_lab.Text.Decimal.{is_digit, show_digits, show, parse_uint-show}
use actix_web_lab.Time.{from_millis, max_u64}
use actix_web_lab.Bytes.{utf8_from, start, Bytes, is_utf8, IsUtf8, IsUtf8-append, utf8_step}
use actix_web_lab.Russe.Search.{Finders, leftmost_first}
use actix_web_lab.Russe.{Building, add_data, directive, matched, run, decoded, comment}

pub is_utf8_of : (s : Bytes) → IsUtf8 s → is_utf8 s ≡ true
is_utf8_of s h = rw h

module _ (finders : Finders) (value : Bytes) (valid : IsUtf8 value) (lines : List Bytes)
    (b : Building) where
  pub run-data :
      run finders ((text "data: " ++ value) ∷ lines) b
      ≡ run finders lines (record b { data_buf = add_data b.data_buf value; message_event = true })
  unfolding run matched directive leftmost_first
  run-data = rw (
    is_utf8_of (text "data: " ++ value)
        (IsUtf8-append (text "data: ") value (unfold utf8_step in refl) valid),
    finders.directive_first (text "data: " ++ value),
  )

  pub run-id :
      run finders ((text "id: " ++ value) ∷ lines) b
      ≡ run finders lines (record b { id = some value; message_event = true })
  unfolding run matched directive leftmost_first
  run-id = rw (
    is_utf8_of (text "id: " ++ value)
        (IsUtf8-append (text "id: ") value (unfold utf8_step in refl) valid),
    finders.directive_first (text "id: " ++ value),
  )

  pub run-event :
      run finders ((text "event: " ++ value) ∷ lines) b
      ≡ run finders lines (record b { event = some value; message_event = true })
  unfolding run matched directive leftmost_first
  run-event = rw (
    is_utf8_of (text "event: " ++ value)
        (IsUtf8-append (text "event: ") value (unfold utf8_step in refl) valid),
    finders.directive_first (text "event: " ++ value),
  )

  pub run-comment : run finders ((text ": " ++ value) ∷ lines) b ≡ decoded (comment value)
  unfolding run matched directive leftmost_first
  run-comment = rw (
    is_utf8_of (text ": " ++ value)
        (IsUtf8-append (text ": ") value (unfold utf8_step in refl) valid),
    finders.directive_first (text ": " ++ value),
  )

digit_ascii : (c : ℕ) → is_digit c ≡ true → ltb c 0x80 ≡ true
digit_ascii c h = ground arith

first_of_ascii : (c : ℕ) → ltb c 0x80 ≡ true → utf8_step start c ≡ some start
unfolding utf8_step
first_of_ascii c h = rw h

ascii-IsUtf8 : (s : Bytes) → All (λ c. ltb c 0x80 ≡ true) s → IsUtf8 s
ascii-IsUtf8 [] h = refl
ascii-IsUtf8 (c ∷ s) (p, h) = ap (λ o. utf8_from o s) (first_of_ascii c p) ∙ ascii-IsUtf8 s h

pub show-IsUtf8 : (n : ℕ) → IsUtf8 (show n)
show-IsUtf8 n =
    ascii-IsUtf8 (show n) (
      All-imp (λ c. is_digit c ≡ true) (λ c. ltb c 0x80 ≡ true) digit_ascii (show n)
        (show_digits n))

module _ (finders : Finders) (millis : ℕ) (fits : millis ≤ max_u64) (lines : List Bytes)
    (b : Building) where
  pub run-retry :
      run finders ((text "retry: " ++ show millis) ∷ lines) b
      ≡ run finders lines (record b { retry = some (from_millis millis) })
  unfolding run matched directive leftmost_first
  run-retry = rw (
    is_utf8_of (text "retry: " ++ show millis) (
        IsUtf8-append (text "retry: ") (show millis) (unfold utf8_step in refl)
          (show-IsUtf8 millis)),
    finders.directive_first (text "retry: " ++ show millis),
    parse_uint-show max_u64 millis fits,
  )
