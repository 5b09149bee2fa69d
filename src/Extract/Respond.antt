-- ===== src/Extract/Respond.antt =====
-- actix-web-lab/src/cbor.rs and msgpack.rs.
use actix_web_lab.Bytes.{Bytes}
use actix_web_lab.Text.{Text, text}
use actix_web_lab.Common.{ℕ, Option, some, none}

pub record HttpResponse : Type 0 where
  pub status : ℕ
  pub content_type : Text
  pub body : Bytes

-- What a serializer fails on is a panic, and no response.
abbrev pub responded : Text → Option Bytes → Option HttpResponse
responded mime none = none
responded mime (some body) = some (record { status = 200; content_type = mime; body = body })

module _ {T : Type 0} where
  unfoldable pub respond_cbor : (T → Option Bytes) → T → Option HttpResponse
  respond_cbor to_vec value = responded (text "application/cbor") (to_vec value)

  unfoldable pub respond_msgpack : (T → Option Bytes) → T → Option HttpResponse
  respond_msgpack to_vec value = responded (text "application/msgpack") (to_vec value)

  unfoldable pub respond_msgpack_named : (T → Option Bytes) → T → Option HttpResponse
  respond_msgpack_named to_vec_named value =
      responded (text "application/msgpack") (to_vec_named value)
