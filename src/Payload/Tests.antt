-- ===== src/Payload/Tests.antt =====
-- The theorems of the extractors at concrete payloads.
use actix_web_lab.Common.{
  ℕ, Bool, true, false, [], ◌∷◌, Option, none, some, ◌≡◌, ◌<◌, refl, arith, Result, ok, err,
}
use actix_web_lab.Text.{text}
use actix_web_lab.Bytes.{Bytes}
use actix_web_lab.Payload.{Payload, chunk, wait, fail, returns, reading, drive}
use actix_web_lab.Payload.Reading.{drive-outcome}
use actix_web_lab.Payload.BytesBody
use actix_web_lab.Payload.BytesBody.{bytes_body-collects}
use actix_web_lab.Payload.JsonBody
use actix_web_lab.Payload.FormBody
use actix_web_lab.Payload.FormBody.{form_body-parses, form_body-refuses}

-- Two chunks, of which the second is late.
abbrev late : Payload ℕ
late = chunk (text "ab") ∷ (wait ∷ (chunk (text "cde") ∷ []))

abbrev broken : Payload ℕ
broken = chunk (text "ab") ∷ (wait ∷ (fail 7 ∷ []))

drive-outcome_example :
    drive (BytesBody.bytes_body 4) 4 (reading none broken []) ≡ returns (err (BytesBody.payload 7))
drive-outcome_example = drive-outcome (BytesBody.bytes_body 4) 4 none broken [] (omega arith)

bytes_body-collects_example :
    drive (BytesBody.bytes_body 4) 4 (BytesBody.new 4 (some (record { into_inner = 3 })) late)
    ≡ returns (err (BytesBody.overflow 4))
bytes_body-collects_example =
    bytes_body-collects 4 4 (some (record { into_inner = 3 })) late tt (omega arith)

-- A parser that takes any bytes as they are.
abbrev as_it_is : Bytes → Result ⊥ Bytes
as_it_is bytes = ok bytes

abbrev json_mime : Result ⊥ (Option JsonBody.Mime)
json_mime = ok (some (record { subtype_is_json = false; suffix_is_json = true }))

abbrev form_mime : Result ⊥ (Option Bool)
form_mime = ok (some true)

form_body-parses_example :
    drive (FormBody.form_body as_it_is 5) 4 (FormBody.new 5 form_mime none late)
    ≡ returns (ok (text "abcde"))
unfolding FormBody.can_parse_form JsonBody.announced_length
form_body-parses_example =
    form_body-parses as_it_is 4 5 form_mime none late refl tt (omega arith) tt (omega arith)

form_body-refuses_example :
    (size : ℕ) × (drive (FormBody.form_body as_it_is 4) 4 (FormBody.new 4 form_mime none late)
      ≡ returns (err (FormBody.overflow size 4)))
    × (4 < size)
unfolding FormBody.can_parse_form
form_body-refuses_example =
    form_body-refuses as_it_is 4 4 form_mime none late refl tt (omega arith) (omega arith)
