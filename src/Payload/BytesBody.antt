-- ===== src/Payload/BytesBody.antt =====
-- actix-web-lab/src/bytes.rs: the extractor of a whole payload as bytes. `get_header` of the
-- content length is what `new` is given; web::Bytes and the buffer are lists of bytes.
use actix_web_lab.Common.{
  ℕ, zero, suc, ◌<◌, ltb, if◌then◌else◌, Result, ok, err, length, [], Option, none, some, ◌≡◌, refl,
  arith, Bool-cases, inl, inr,
}
use actix_web_lab.Bytes.{Bytes}
use actix_web_lab.Header.ContentLength.{ContentLength}
use actix_web_lab.Payload.{Payload, Extraction, Body, error, reading, returns, drive, poll}
use actix_web_lab.Payload.Reading.{drive-collects, contents, IsSound}

pub data BytesPayloadError (PayloadError : Type 0) : Type 0 where
  overflow_known_length : (length limit : ℕ) → BytesPayloadError PayloadError
  overflow : (limit : ℕ) → BytesPayloadError PayloadError
  payload : PayloadError → BytesPayloadError PayloadError

-- `status_code`, given that of a payload's error
unfoldable pub status_code : {E : Type 0} → (E → ℕ) → BytesPayloadError E → ℕ
status_code of_payload (overflow_known_length length limit) = 413
status_code of_payload (overflow limit) = 413
status_code of_payload (payload e) = of_payload e

module _ {PayloadError : Type 0} where
  -- The loop of `BytesBody::poll`; `split` empties the buffer.
  abbrev pub bytes_body : ℕ → Extraction PayloadError (BytesPayloadError PayloadError) Bytes
  bytes_body limit = record {
    limit = limit;
    overflow = λ buf_len. overflow limit;
    payload_error = payload;
    decode = λ buf. ok buf;
    leave = λ buf. [];
  }

  -- `BytesBody::new`
  unfoldable pub new :
      ℕ
      → Option ContentLength
      → Payload PayloadError
      → Body PayloadError (BytesPayloadError PayloadError)
  new limit none arrivals = reading none arrivals []
  new limit (some c) arrivals =
      if ltb limit c.into_inner
      then error (some (overflow_known_length c.into_inner limit))
      else reading (some c.into_inner) arrivals []

  -- What the extractor promises: the limits by what is announced, then by what comes.
  abbrev pub promised :
      ℕ → Option ContentLength → Bytes → Result (BytesPayloadError PayloadError) Bytes
  promised limit none all = if ltb limit (length all) then err (overflow limit) else ok all
  promised limit (some c) all =
      if ltb limit c.into_inner
      then err (overflow_known_length c.into_inner limit)
      else if ltb limit (length all)
      then err (overflow limit)
      else ok all

  -- A payload that does not fail is given whole if it and the length that its header announces are
  -- within the limit, and else refused with the error for the one that is not, the announced one
  -- first; how the payload is cut into chunks, and how often it made the future wait, is without
  -- effect, provided the future is polled once more than the stream has turns.
  pub bytes_body-collects :
      (n limit : ℕ) (announced : Option ContentLength) (arrivals : Payload PayloadError)
      → IsSound arrivals
      → length arrivals < n
      → drive (bytes_body limit) n (new limit announced arrivals)
        ≡ returns (promised limit announced (contents arrivals))
  unfolding new drive
  bytes_body-collects n limit none arrivals h k =
      drive-collects (bytes_body limit) (overflow limit) (λ size. refl) n none arrivals h k
  bytes_body-collects zero limit (some c) arrivals h k = absurd (omega arith)
  bytes_body-collects (suc n) limit (some c) arrivals h k =
      elim (Bool-cases (ltb limit c.into_inner)) [
        | inl over ↦ rw over (unfold poll in refl)
        | inr fits ↦ rw fits (
            drive-collects (bytes_body limit) (overflow limit) (λ size. refl) (suc n)
              (some c.into_inner) arrivals h k)
      ]
