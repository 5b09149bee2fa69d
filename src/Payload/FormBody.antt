-- ===== src/Payload/FormBody.antt =====
-- actix-web-lab/src/url_encoded_form.rs: the extractor of a URL-encoded form. serde_html_form's
-- `from_bytes` and the comparison of media types are parameters; the errors are actix-web's
-- `UrlencodedError`.
use actix_web_lab.Common.{
  ℕ, zero, suc, ◌<◌, ltb, if◌then◌else◌, Result, ok, err, length, [], Option, none, some, ◌≡◌, refl,
  arith, Bool, true, false, Bool-cases, inl, inr, ◌≤◌, Option-cases, subst,
}
use actix_web_lab.Bytes.{Bytes}
use actix_web_lab.Text.{Text}
use actix_web_lab.Payload.{Payload, Extraction, Body, error, reading, returns, drive, poll}
use actix_web_lab.Payload.Reading.{drive-fits, drive-exceeds, contents, IsSound}
use actix_web_lab.Payload.JsonBody.{announced_length}

-- The constructors that the code uses
pub data UrlencodedError (PayloadError Parse : Type 0) : Type 0 where
  overflow : (size limit : ℕ) → UrlencodedError PayloadError Parse
  content_type : UrlencodedError PayloadError Parse
  parse : Parse → UrlencodedError PayloadError Parse
  payload : PayloadError → UrlencodedError PayloadError Parse

-- `can_parse_form`, from whether what `req.mime_type()` gives is the media type of a form
unfoldable pub can_parse_form : {E : Type 0} → Result E (Option Bool) → Bool
can_parse_form (ok (some is_form)) = is_form
can_parse_form (ok none) = false
can_parse_form (err e) = false

abbrev pub parsed :
    {PayloadError Parse T : Type 0} → Result Parse T → Result (UrlencodedError PayloadError Parse) T
parsed (ok form) = ok form
parsed (err e) = err (parse e)

abbrev pub sized :
    {PayloadError Parse : Type 0}
    → ℕ
    → Option ℕ
    → Payload PayloadError
    → Body PayloadError (UrlencodedError PayloadError Parse)
sized limit none arrivals = reading none arrivals []
sized limit (some len) arrivals =
    if ltb limit len then error (some (overflow len limit)) else reading (some len) arrivals []

-- `UrlEncodedFormBody::new`
unfoldable pub new :
    {PayloadError Parse ContentTypeError : Type 0}
    → ℕ
    → Result ContentTypeError (Option Bool)
    → Option Text
    → Payload PayloadError
    → Body PayloadError (UrlencodedError PayloadError Parse)
new limit mime_type content_length arrivals =
    if can_parse_form mime_type
    then sized limit (announced_length content_length) arrivals
    else error (some content_type)

abbrev pub IsWithin : ℕ → Option ℕ → Type 0
IsWithin limit none = Unit
IsWithin limit (some len) = len ≤ limit

module _ {PayloadError Parse T : Type 0} (from_bytes : Bytes → Result Parse T) where
  -- The loop of `UrlEncodedFormBody::poll`; the buffer is only lent to `from_bytes`.
  abbrev pub form_body : ℕ → Extraction PayloadError (UrlencodedError PayloadError Parse) T
  form_body limit = record {
    limit = limit;
    overflow = λ buf_len. overflow buf_len limit;
    payload_error = payload;
    decode = λ buf. parsed (from_bytes buf);
    leave = λ buf. buf;
  }

  -- A form that is announced as one, with a payload that does not fail and that is within the
  -- limit, as is the length its header announces, is parsed as a whole, however it is cut into
  -- chunks, when the future is polled once more than the stream has turns.
  pub form_body-parses :
      {ContentTypeError : Type 0} (n limit : ℕ) (mime_type : Result ContentTypeError (Option Bool))
      (content_length : Option Text) (arrivals : Payload PayloadError)
      → can_parse_form mime_type ≡ true
      → IsSound arrivals
      → length arrivals < n
      → IsWithin limit (announced_length content_length)
      → length (contents arrivals) ≤ limit
      → drive (form_body limit) n (new limit mime_type content_length arrivals)
        ≡ returns (parsed (from_bytes (contents arrivals)))
  unfolding new
  form_body-parses n limit mime_type content_length arrivals form h k announced fits =
      elim (Option-cases (announced_length content_length)) [
        | inl missing ↦ rw (form, missing) (drive-fits (form_body limit) n none arrivals h k fits)
        | inr (len, found) ↦
            let within : len ≤ limit = subst (IsWithin limit) found announced in
            let no_error : ltb limit len ≡ false = ground arith in
            rw (form, found, no_error) (drive-fits (form_body limit) n (some len) arrivals h k fits)
      ]

  -- A form whose payload does not fail and is too long for the limit is refused, whatever length was
  -- announced for it; the error tells the limit, and a size above it.
  pub form_body-refuses :
      {ContentTypeError : Type 0} (n limit : ℕ) (mime_type : Result ContentTypeError (Option Bool))
      (content_length : Option Text) (arrivals : Payload PayloadError)
      → can_parse_form mime_type ≡ true
      → IsSound arrivals
      → length arrivals < n
      → limit < length (contents arrivals)
      → (size : ℕ) × (drive (form_body limit) n (new limit mime_type content_length arrivals)
          ≡ returns (err (overflow size limit)))
        × (limit < size)
  unfolding new drive
  form_body-refuses zero limit mime_type content_length arrivals form h k long =
      absurd (omega arith)
  form_body-refuses (suc n) limit mime_type content_length arrivals form h k long =
      elim (Option-cases (announced_length content_length)) [
        | inl missing ↦
            let (size, result, above, below) =
              drive-exceeds (form_body limit) (suc n) none arrivals h k long in
            (size, rw (form, missing) result, above)
        | inr (len, found) ↦ elim (Bool-cases (ltb limit len)) [
          | inl over ↦ (len, rw (form, found, over) (unfold poll in refl), ground arith)
          | inr fits ↦
              let (size, result, above, below) =
                drive-exceeds (form_body limit) (suc n) (some len) arrivals h k long in
              (size, rw (form, found, fits) result, above)
        ]
      ]
