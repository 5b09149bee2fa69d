-- ===== src/Extract.antt =====
-- The extractors of actix-web-lab that hand the query or the path of a request to a deserializer
-- (query.rs, path.rs) or copy the host (host.rs), and the responders that hand a value to a serializer (cbor.rs, msgpack.rs).
-- The serde libraries are parameters.
pub mod Query
pub mod Respond
pub mod Host
mod Tests
