-- ===== src/Lib.antt =====
-- actix-web-lab: extractors, typed headers, responders and middleware for the actix-web framework,
-- with russe, a decoder of server-sent events, and two smaller crates.
--
-- The parts of the program and the files that model them:
--
--   * actix-web-lab/src/sse.rs, the server's side of an event stream. Sse.antt has the struct `Data`
--     and the enum `Event` with the functions that write them (`into_bytes`,
--     `line_split_with_prefix`, `retry_to_bytes`, `keep_alive_bytes`); Sse/Polling.antt has the
--     response body `Sse`, its builders and `poll_next`; Sse/Responding.antt its constructors and the
--     response. The inner stream and the interval of a body
--     are states with a poll of each, which the definitions take as arguments.
--   * russe/src, the client's side. Russe.antt has `Decoder::decode` (decoder.rs) with the buffer it
--     cuts, the variables it carries from line to line, and a value for each way in which it ends:
--     nothing yet, an event, an error, a panic. Russe/Search.antt states what is used of the memchr
--     and aho-corasick crates. RoundTrip and its children put the two sides together.
--   * actix-web-lab/src/header.rs and the typed headers: Header.antt has the two functions on
--     comma-delimited quoted strings; Header/ClearSiteData, Header/CacheControl,
--     Header/StrictTransportSecurity, Header/ContentLength, Header/Forwarded and
--     Header/XForwardedPrefix the module of that name, each with `FromStr`, the value that is
--     written, and `parse`. Header values, actix-http's comma-delimited lists and http's paths are
--     records of operations with the laws that their documentation gives (Header/Http, Header/Comma,
--     `Paths` of Header/XForwardedPrefix).
--   * actix-web-lab/src/bytes.rs, json.rs and url_encoded_form.rs, the extractors that collect a
--     payload within a limit. They share one loop, which Payload.antt has once, over a record of
--     that in which they differ; Payload/BytesBody, Payload/JsonBody and Payload/FormBody are the
--     three. A payload is the list of what its stream does in each turn.
--   * fork_request_payload of actix-web-lab/src/util.rs, with body_limit.rs and
--     actix-hash/src/body_hash.rs, which count and hash what another extractor reads: Fork.antt has
--     the proxy and the channel, Fork/Reads what may be done with them, Fork/BodyLimit and
--     Fork/BodyHash the two futures, for any inner extractor (`Extractor`).
--   * actix-web-lab/src/normalize_path.rs, load_shed.rs and the three redirect_to_*.rs, the
--     middleware, in Middleware/NormalizePath, Middleware/LoadShed and Middleware/Redirects: what a
--     service or a function does with a request until it is passed on to the inner service, which
--     is a state with a poll and a call, or answered.
--   * actix-web-lab/src/err_handler.rs, middleware_map_response.rs, middleware_map_response_body.rs,
--     catch_panic.rs and panic_reporter.rs, the middleware that wraps a service's future, in
--     Middleware/Wrappers. Future.antt says what a future is (`Machine`) and what it comes to
--     (`Settles`); Middleware/Wrappers/Sequence has the shape of a future in two parts, which three
--     of them share.
--   * actix-web-lab/src/request_signature.rs: Signature.antt has the turns of the extractor, of the
--     task that folds the chunks and of the task's handle, in any order; Signature/Channel the proxy
--     that copies the chunks; Signature/Folding the scheme's functions one after another.
--   * russe/src/reqwest_0_12.rs, the adapter of the decoder to a response body: Russe/Framing has the
--     runs of a reader of chunks, Russe/Client the manager of requests. RoundTrip/EndToEnd goes from
--     the events of a handler to those of a client.
--   * actix-web-lab/src/body_channel.rs and body_async_write.rs, in Body.antt, over a channel
--     (Body/Channel); Body/Operations has the steps that its holders take,
--     Body/Writing those of a writer.
--   * actix-web-lab/src/swap_data.rs, local_data.rs and lazy_data.rs, the shared state, in State, over
--     arc_swap (`ArcSwap` of State/SwapData) and tokio's OnceCell (State/OnceCell) as interfaces.
--   * actix-web-lab/src/csv.rs, ndjson.rs and display_stream.rs, in Lines.antt, with what they use of
--     util.rs; query.rs, path.rs, cbor.rs and msgpack.rs, in Extract; the futures of json.rs,
--     url_encoded_form.rs and bytes.rs that poll a body, in Payload/Extracting.
--   * actix-client-ip-cloudflare/src: ClientIp.antt has the set of trusted ranges (fetch_cf_ips.rs)
--     and the extractor of a client's address (extract.rs), over the ipnetwork crate;
--     ClientIp/Headers has the two headers, ClientIp/Fetching the fetching of the ranges.
--   * actix-web-lab-derive/src/lib.rs, in Derive.antt: which fields of a struct the code that the macro
--     makes extracts, which it copies, and what that code does.
--   * actix-web-lab/src/spa.rs, in Spa.antt.
--
-- Text is a list of Unicode code points and bytes are a list of numbers (Text.antt, Bytes.antt);
-- the functions of Rust's standard library that the code calls (split, trim, strip, join, parse of
-- an unsigned integer, UTF-8 validity) are written out there and in Text/Split, Text/Decimal and
-- Text/Trim. Integers are natural numbers with the bound of their type at the place where a text is
-- parsed; lengths in memory are taken not to wrap. Durations are seconds and nanoseconds (Time.antt).
--
-- The loops that drive a future (`drive`) run on the number of polls. In Payload.antt more polls
-- than the payload has turns are enough, whatever the payload: each poll uses up at least one. With
-- a forked payload it is the inner extractor that decides how many polls there are, and the
-- theorems hold for any number. The other loops are recursion on their input, but for the digits of
-- a number, whose fuel is one more than the number.
--
-- The runs of a signature, of a channel body and of a lazy value are lists of steps of any length, so
-- there is no bound on them; the reader of chunks is a relation, which is shown to have a run on any
-- body, by a fuel of one more than the body's length.
--
-- Not modelled: logging and wake-ups; what files and the network give; the tokens of the derive
-- macro; the helpers for tests; actix-web itself, whose services, routes and responses are
-- parameters or are left out.
pub mod Common
pub mod Text
pub mod Bytes
pub mod Time
pub mod Future
pub mod Header
pub mod Sse
pub mod Russe
pub mod RoundTrip
pub mod Payload
pub mod Fork
pub mod Middleware
pub mod ClientIp
pub mod Signature
pub mod Body
pub mod State
pub mod Lines
pub mod Extract
pub mod Derive
pub mod Spa
