-- ===== src/Sse/Responding.antt =====
-- How a response of events is made, and what headers it has: the rest of actix-web-lab/src/sse.rs.
use actix_web_lab.Header.CacheControl
use actix_web_lab.Text.{Text, text}
use actix_web_lab.Bytes.{Bytes}
use actix_web_lab.Sse.Polling.{Sse, from_stream}
use actix_web_lab.Sse.{Data, Bytes, Event, text, event_data, new}
use actix_web_lab.Common.{
  List, Result, Poll, ℕ, Option, err, ready, ◌∷◌, ok, some, pending, none, [],
}

-- `Data::new_json`, over serde_json's `to_string`
abbrev pub json_data : {E : Type 0} → Result E Bytes → Result E Data
json_data (err e) = err e
json_data (ok content) = ok (new content)

unfoldable pub new_json : {T E : Type 0} → (T → Result E Bytes) → T → Result E Data
new_json to_string value = json_data (to_string value)

-- `From<Data> for Event`
unfoldable pub from_data : Data → Event
from_data d = event_data d

-- A poll of the `InfallibleStream` around a stream of events
abbrev pub infallible_events : Poll (Option Event) → Poll (Option (Result ⊥ Event))
infallible_events pending = pending
infallible_events (ready none) = ready none
infallible_events (ready (some e)) = ready (some (ok e))

unfoldable pub poll_infallible :
    {S : Type 0} → (S → S × Poll (Option Event)) → S → S × Poll (Option (Result ⊥ Event))
poll_infallible poll_stream s = ((poll_stream s).0, infallible_events (poll_stream s).1)

module _ {S I : Type 0} where
  -- The state is that of the stream, or of the receiver, which is polled through `poll_infallible`
  -- where it cannot fail.
  unfoldable pub from_infallible_stream : S → Sse S I
  from_infallible_stream stream = from_stream stream

  unfoldable pub from_receiver : S → Sse S I
  from_receiver receiver = from_stream receiver

  unfoldable pub from_infallible_receiver : S → Sse S I
  from_infallible_receiver receiver = from_stream receiver

-- `BodySize`
pub data BodySize : Type 0 where
  stream : BodySize
  sized : ℕ → BodySize

unfoldable pub size : {S I : Type 0} → Sse S I → BodySize
size sse = stream

-- The response's headers and its body
pub record Response (S I : Type 0) : Type 0 where
  pub status : ℕ
  pub headers : List (Text × Text)
  pub body : Sse S I

unfoldable pub respond_to : {S I : Type 0} → Sse S I → Response S I
respond_to sse = record {
  status = 200;
  headers =
      (text "content-type", text "text/event-stream")
      ∷ ((text "content-encoding", text "identity")
          ∷ ((text "cache-control", CacheControl.display CacheControl.no_cache) ∷ []));
  body = sse;
}
