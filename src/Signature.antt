-- ===== src/Signature.antt =====
-- actix-web-lab/src/request_signature.rs: an extractor that folds a payload into a signature while
-- another one reads it. The payload's chunks are copied over a channel to a task of its own, and the
-- runtime polls the two in any order; what a user writes, the scheme and the inner extractor, are
-- parameters.
pub mod Channel
pub mod Folding
mod Following
mod Turns
pub mod Laws
pub mod Completion
mod Tests
use actix_web_lab.Signature.Channel.{Inner, Tap, tapped}
use actix_web_lab.Bytes.{Bytes}
use actix_web_lab.Payload.{Payload, Step, waits, returns, panics, chunk, fail, wait}
use actix_web_lab.Common.{
  List, Result, Poll, true, Option, ok, Bool, [], if◌then◌else◌, ready, err, some, none, false,
  ◌++◌, ◌∷◌, pending, ◌||◌,
}

-- `RequestSignatureScheme` for one request. What `init`, `consume_chunk` and `finalize` wait for is
-- left to the turns of the runtime.
pub record Scheme : Type 1 where
  pub State : Type 0
  pub Signature : Type 0
  pub Error : Type 0
  pub init : Result Error State
  pub consume_chunk : State → Bytes → Result Error State
  pub finalize : State → Result Error Signature
  pub verify : Signature → Result Error Signature

-- The default of `verify`
unfoldable pub verify_default : {Error Signature : Type 0} → Signature → Result Error Signature
verify_default signature = ok signature

pub record RequestSignature (T Signature : Type 0) : Type 0 where
  pub extractor : T
  pub signature : Signature

unfoldable pub into_parts : {T Signature : Type 0} → RequestSignature T Signature → T × Signature
into_parts s = (s.extractor, s.signature)

pub data RequestSignatureError (X E : Type 0) : Type 0 where
  extractor : X → RequestSignatureError X E
  signature : E → RequestSignatureError X E

-- Into actix-web's error, by the conversions of the two errors.
unfoldable pub into_error :
    {X E Any : Type 0} → (X → Any) → (E → Any) → RequestSignatureError X E → Any
into_error from_x from_e (extractor e) = from_x e
into_error from_x from_e (signature e) = from_e e

-- The task: in its loop, or done with its result.
pub data Task (State Error Signature : Type 0) : Type 0 where
  digesting : State → Task State Error Signature
  finished : Result Error Signature → Task State Error Signature

-- A branch of `try_join!`: a future, or the value that it came to.
pub data Branch (I T : Type 0) : Type 0 where
  running : I → Branch I T
  joined : T → Branch I T

-- Whose turn it is: `try_join!` polls the extractor or the task's handle, or the task goes once
-- round its loop.
pub data Turn : Type 0 where
  body hash task : Turn

module _ (scheme : Scheme) {E Error : Type 0} (x : Inner E Error) where
  abbrev pub TaskOf : Type 0
  TaskOf = Task scheme.State scheme.Error scheme.Signature

  -- `hash_done` is what `try_join!` has of the task.
  pub record Joining : Type 0 where
    pub body_fut : Branch x.Future x.Value
    pub hash_done : Option scheme.Signature
    pub task_state : TaskOf
    pub tap : Tap E

  abbrev pub Out : Type 0
  Out =
      Result (RequestSignatureError Error scheme.Error) (RequestSignature x.Value scheme.Signature)

  -- A turn leaves the two to be polled again, or ends the future.
  abbrev pub Turned : Type 0
  Turned = Joining × Step Out

  -- The receiver is dropped where the task ends.
  unfoldable pub consumed : Result scheme.Error scheme.State → List Bytes → Joining → Joining
  consumed (ok s) queue j = record j {
    task_state = digesting s;
    tap = record j.tap { queue = queue };
  }
  consumed (err e) queue j = record j {
    task_state = finished (err e);
    tap = record j.tap { queue = queue; closed = true };
  }

  unfoldable pub task_turn : scheme.State → List Bytes → Joining → Joining
  unfolding consumed
  task_turn s [] j =
      if j.tap.dropped
      then record j {
        task_state = finished (scheme.finalize s);
        tap = record j.tap { closed = true };
      }
      else j
  task_turn s (c ∷ queue) j = consumed (scheme.consume_chunk s c) queue j

  -- What stands behind `try_join!`, with what `verify` says.
  abbrev pub with_body : x.Value → Result scheme.Error scheme.Signature → Out
  with_body t (ok s) = ok (record { extractor = t; signature = s })
  with_body t (err e) = err (signature e)

  abbrev pub verified : x.Value → scheme.Signature → Out
  verified t s = with_body t (scheme.verify s)

  unfoldable pub both_done : Joining → Branch x.Future x.Value → Option scheme.Signature → Turned
  both_done j (joined t) (some s) = (j, returns (verified t s))
  both_done j (joined t) none = (j, waits)
  both_done j (running fut) _ = (j, waits)

  -- A future that is done is dropped, and the proxy with it if it has it.
  unfoldable pub body_polled : x.Future → Tap E → Poll (Result Error x.Value) → Joining → Turned
  unfolding both_done
  body_polled fut f res j = if f.panicked then (record j { tap = f }, panics) else elim res [
    | pending ↦ (record j { body_fut = running fut; tap = f }, waits)
    | ready (err e) ↦ (record j { tap = f }, returns (err (extractor e)))
    | ready (ok t) ↦
        both_done
          (record j {
            body_fut = joined t;
            tap = record f { dropped = f.dropped || x.holds_proxy fut };
          })
          (joined t) j.hash_done
  ]

  unfoldable pub body_turn : Branch x.Future x.Value → Joining → Turned
  unfolding body_polled
  body_turn (joined t) j = (j, waits)
  body_turn (running fut) j =
      let (fut', (f, res)) = x.poll_future fut j.tap in body_polled fut' f res j

  unfoldable pub hash_turn : TaskOf → Joining → Turned
  unfolding both_done
  hash_turn (digesting s) j = (j, waits)
  hash_turn (finished (err e)) j = (j, returns (err (signature e)))
  hash_turn (finished (ok s)) j = both_done (record j { hash_done = some s }) j.body_fut (some s)

  abbrev pub task_step : TaskOf → Joining → Joining
  task_step (digesting s) j = task_turn s j.tap.queue j
  task_step (finished r) j = j

  unfoldable pub turn : Turn → Joining → Turned
  unfolding body_turn hash_turn task_turn
  turn body j = body_turn j.body_fut j
  turn hash j = hash_turn j.task_state j
  turn task j = (task_step j.task_state j, waits)

  abbrev pub then_turn : Turned → (Joining → Turned) → Turned
  then_turn (j, waits) rest = rest j
  then_turn (j, panics) rest = (j, panics)
  then_turn (j, returns r) rest = (j, returns r)

  unfoldable pub take_turns : List Turn → Joining → Turned
  take_turns [] j = (j, waits)
  take_turns (t ∷ turns) j = then_turn (turn t j) (take_turns turns)

  -- Before the two are joined, `init` is awaited, with the inner future made but not polled.
  unfoldable pub spawned : scheme.State → Payload E → x.Future → Joining
  spawned s payload fut = record {
    body_fut = running fut;
    hash_done = none;
    task_state = digesting s;
    tap = tapped payload;
  }

  unfoldable pub started :
      Payload E → x.Future → List Turn → Result scheme.Error scheme.State → Payload E × Step Out
  unfolding spawned take_turns
  started payload fut turns (err e) = (payload, returns (err (signature e)))
  started payload fut turns (ok s) =
      let (j, r) = take_turns turns (spawned s payload fut) in (j.tap.orig, r)

  -- What the stream has still to give after these turns, and what the future came to
  unfoldable pub from_request : Payload E → x.Future → List Turn → Payload E × Step Out
  unfolding started
  from_request payload fut turns = started payload fut turns scheme.init
