-- ===== src/Extract/Tests.antt =====
-- The extractors and responders on small inputs.
use actix_web_lab.Text.{text}
use actix_web_lab.Extract.Respond.{respond_cbor}
use actix_web_lab.Extract.Query.{QueryDeserializeError, display_error}
use actix_web_lab.Common.{ℕ, ◌≡◌, some, ◌∷◌, [], refl}

abbrev bad_field : QueryDeserializeError ℕ
bad_field = record {
  path = record { segments = text "user" ∷ []; shown = text "user" };
  source = 1;
}

shows_place : display_error bad_field ≡ text "Query deserialization failed at path: user"
unfolding display_error
shows_place = refl

cbor_body :
    respond_cbor (λ n. some (n ∷ [])) 7
    ≡ some (record { status = 200; content_type = text "application/cbor"; body = 7 ∷ [] })
unfolding respond_cbor
cbor_body = refl
