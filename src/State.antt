-- ===== src/State.antt =====
-- The extractors of actix-web-lab that share a value among the handlers of an application:
-- swap_data.rs, local_data.rs and lazy_data.rs. What an application was given under the type of the
-- extractor, if anything, is an argument.
pub mod SwapData
pub mod LocalData
pub mod OnceCell
pub mod LazyData
mod Tests
