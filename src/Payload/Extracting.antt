-- ===== src/Payload/Extracting.antt =====
-- The futures of json.rs, url_encoded_form.rs and bytes.rs that extract a payload in a handler: each
-- polls a body's future, and keeps the request for a message that is logged when that fails.
use actix_web_lab.Payload.{Extraction, Step, Body, panics, returns, poll, waits}
use actix_web_lab.Future.{Machine, Settles, at_once, later}
use actix_web_lab.Common.{
  Option, some, Result, ◌≡◌, ◌≢◌, ℕ, none, ok, err, ◌∙◌, refl, ap, subst, sym,
}

pub record ExtractFut (Req Fut : Type 0) : Type 0 where
  pub req : Option Req
  pub fut : Fut

-- `req.take().unwrap()`, and then the error, converted.
abbrev pub refused :
    {Req Fut Error T : Type 0}
    → Option Req
    → Fut
    → Error
    → ExtractFut Req Fut × Step (Result Error T)
refused none fut e = (record { req = none; fut = fut }, panics)
refused (some req) fut e = (record { req = none; fut = fut }, returns (err e))

module _ {BodyError Error A T : Type 0} (into : BodyError → Error) (wrap : A → T) where
  abbrev pub extracted : Step (Result BodyError A) → Step (Result Error T)
  extracted waits = waits
  extracted panics = panics
  extracted (returns (ok a)) = returns (ok (wrap a))
  extracted (returns (err e)) = returns (err (into e))

  extracted-waits : (r : Step (Result BodyError A)) → r ≢ waits → extracted r ≢ waits
  extracted-waits waits ne = absurd (ne refl)
  extracted-waits panics ne = λ e. cc
  extracted-waits (returns (ok a)) ne = λ e. cc
  extracted-waits (returns (err e)) ne = λ e'. cc

-- `into` is the conversion of the body's error, `wrap` that of its value.
module _ (Req : Type 0) {BodyError Error A T : Type 0} (body : Machine (Result BodyError A))
    (into : BodyError → Error) (wrap : A → T) where
  abbrev pub body_polled :
      Option Req
      → body.State × Step (Result BodyError A)
      → ExtractFut Req body.State × Step (Result Error T)
  body_polled req (fut, waits) = (record { req = req; fut = fut }, waits)
  body_polled req (fut, panics) = (record { req = req; fut = fut }, panics)
  body_polled req (fut, returns (ok a)) = (record { req = req; fut = fut }, returns (ok (wrap a)))
  body_polled req (fut, returns (err e)) = refused req fut (into e)

  abbrev pub poll_extract :
      ExtractFut Req body.State → ExtractFut Req body.State × Step (Result Error T)
  poll_extract f = body_polled f.req (body.poll f.fut)

  abbrev pub extracting : Machine (Result Error T)
  extracting = record { State = ExtractFut Req body.State; poll = poll_extract }

  polled-result :
      (req : Req) (polled : body.State × Step (Result BodyError A))
      → (body_polled (some req) polled).1 ≡ extracted into wrap polled.1
  polled-result req (fut, waits) = refl
  polled-result req (fut, panics) = refl
  polled-result req (fut, returns (ok a)) = refl
  polled-result req (fut, returns (err e)) = refl

  polled-state :
      (req : Req) (polled : body.State × Step (Result BodyError A))
      → polled.1 ≡ waits
      → (body_polled (some req) polled).0 ≡ record { req = some req; fut = polled.0 }
  polled-state req (fut, waits) h = refl
  polled-state req (fut, panics) h = cc
  polled-state req (fut, returns r) h = cc

  -- An extractor comes to what its body comes to, after as many waits, and the request is there for
  -- the message of a failure.
  pub extracting-Settles :
      (req : Req) {f : body.State} {n : ℕ} {r : Step (Result BodyError A)}
      → Settles body f n r
      → Settles extracting (record { req = some req; fut = f }) n (extracted into wrap r)
  extracting-Settles req (at_once {s = f} {r = r} h ne) =
      at_once (polled-result req (body.poll f) ∙ ap (extracted into wrap) h)
        (extracted-waits into wrap r ne)
  extracting-Settles req (later {s = f} {n = n} {r = r} h rest) =
      later (polled-result req (body.poll f) ∙ ap (extracted into wrap) h) (
        subst (λ s. Settles extracting s n (extracted into wrap r))
          (sym (polled-state req (body.poll f) h)) (extracting-Settles req rest))

-- The body's future, with the loop that the three share.
abbrev pub body_future :
    {PayloadError Error T : Type 0} → Extraction PayloadError Error T → Machine (Result Error T)
body_future {PayloadError} {Error} x = record { State = Body PayloadError Error; poll = poll x }

module _ {Req PayloadError BodyError A : Type 0} (x : Extraction PayloadError BodyError A) where
  -- `JsonExtractFut`, whose error is the body's
  unfoldable pub poll_json :
      {T : Type 0}
      → (A → T)
      → ExtractFut Req (Body PayloadError BodyError)
      → ExtractFut Req (Body PayloadError BodyError) × Step (Result BodyError T)
  poll_json json f = poll_extract Req (body_future x) (λ e. e) json f

  -- `UrlEncodedFormExtractFut`, whose error is actix-web's
  unfoldable pub poll_form :
      {Error T : Type 0}
      → (BodyError → Error)
      → (A → T)
      → ExtractFut Req (Body PayloadError BodyError)
      → ExtractFut Req (Body PayloadError BodyError) × Step (Result Error T)
  poll_form into form f = poll_extract Req (body_future x) into form f

  -- `BytesExtractFut`, likewise
  unfoldable pub poll_bytes :
      {Error T : Type 0}
      → (BodyError → Error)
      → (A → T)
      → ExtractFut Req (Body PayloadError BodyError)
      → ExtractFut Req (Body PayloadError BodyError) × Step (Result Error T)
  poll_bytes into bytes f = poll_extract Req (body_future x) into bytes f

-- `from_request` of the three, with the body's future that `new` made
module _ {Req Fut : Type 0} where
  unfoldable pub json_from_request : Req → Fut → ExtractFut Req Fut
  json_from_request req fut = record { req = some req; fut = fut }

  unfoldable pub form_from_request : Req → Fut → ExtractFut Req Fut
  form_from_request req fut = record { req = some req; fut = fut }

  unfoldable pub bytes_from_request : Req → Fut → ExtractFut Req Fut
  bytes_from_request req fut = record { req = some req; fut = fut }
