-- ===== src/Russe/Framing.antt =====
-- How the stream of russe/src/reqwest_0_12.rs takes events from a body that arrives in chunks: the
-- reader keeps a buffer, and calls `decode` of decoder.rs on it until that asks for more.
pub mod Prefixes
pub mod Laws
pub mod Outcome
use actix_web_lab.Bytes.Lines.{newline}
use actix_web_lab.Text.Split.{split}
use actix_web_lab.Time.{Duration}
use actix_web_lab.Russe.{
  Error, Event, decode, need_more, decoded, failed, panicked, Decoded, Round, directive, matched,
  finish, run, decode_at, go_on, Building, Match, finish_message, pieces, return, Duration, split,
  newline, fresh, delimiter, continue,
}
use actix_web_lab.Russe.Search.{Finders, first_index, starts_with, next, Match, delimiter}
use actix_web_lab.Bytes.{Bytes, is_utf8}
use actix_web_lab.Common.{
  List, ◌∷◌, ℕ, ◌≡◌, true, some, [], false, ◌++◌, Bool-cases, ◌+◌, inl, length, inr, ◌≤◌, arith,
  Option, ap, suc, ◌==◌, none, ◌&&◌, refl, ◌≢◌, take, drop,
}

-- How a stream stands: it waits with these bytes in its buffer, or has ended.
pub data Ending : Type 0 where
  waiting : Bytes → Ending
  broken : Error → Ending
  crashed : Ending

-- Any run of the reader: on a buffer, with these chunks still to come and all of them read, it
-- gives these events and then stands so. A chunk is read only when `decode` asks for more.
pub data Feeds (finders : Finders) (end : Ending) : Bytes → List Bytes → List Event → Type 0 where
  waits :
      {buffer left : Bytes}
      → decode finders buffer ≡ (need_more, left)
      → end ≡ waiting left
      → Feeds finders end buffer [] []
  reads :
      {buffer left chunk : Bytes} {chunks : List Bytes} {events : List Event}
      → decode finders buffer ≡ (need_more, left)
      → Feeds finders end (left ++ chunk) chunks events
      → Feeds finders end buffer (chunk ∷ chunks) events
  gives :
      {buffer left : Bytes} {event : Event} {chunks : List Bytes} {events : List Event}
      → decode finders buffer ≡ (decoded event, left)
      → Feeds finders end left chunks events
      → Feeds finders end buffer chunks (event ∷ events)
  breaks :
      {buffer left : Bytes} {error : Error} {chunks : List Bytes}
      → decode finders buffer ≡ (failed error, left)
      → end ≡ broken error
      → Feeds finders end buffer chunks []
  crashes :
      {buffer left : Bytes} {chunks : List Bytes}
      → decode finders buffer ≡ (panicked, left)
      → end ≡ crashed
      → Feeds finders end buffer chunks []

abbrev pub join : List Bytes → Bytes
join [] = []
join (chunk ∷ chunks) = chunk ++ join chunks
