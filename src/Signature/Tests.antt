-- ===== src/Signature/Tests.antt =====
-- The theorems on request signatures, with a scheme that keeps all that it is given and an extractor
-- that reads its payload to the end, one turn of the stream in each poll.
use actix_web_lab.Signature.Channel.{
  Inner, poll_tap, polls, poll_tap_from, rests, send_chunk, tapped,
}
use actix_web_lab.Signature.Laws.{from_request-Refines}
use actix_web_lab.Signature.Following.{Refines}
use actix_web_lab.Signature.Completion.{task_then_hash, body_done, take_turns-completes}
use actix_web_lab.Text.{text}
use actix_web_lab.Bytes.{Bytes}
use actix_web_lab.Payload.{Payload, chunk, wait, returns, panics}
use actix_web_lab.Signature.{
  Scheme, Turn, verify_default, body, from_request, take_turns, started, task, spawned, hash, turn,
  body_turn, body_polled, both_done, task_turn, hash_turn, consumed, Inner,
}
use actix_web_lab.Common.{
  List, Poll, ok, Option, [], err, Result, true, ◌∷◌, ready, ◌++◌, pending, false, ◌≡◌, arith, refl,
  none,
}

abbrev keeping : Scheme
keeping = record {
  State = Bytes;
  Signature = Bytes;
  Error = Unit {0};
  init = ok [];
  consume_chunk = λ s c. ok (s ++ c);
  finalize = λ s. ok s;
  verify = λ s. verify_default s;
}

-- A scheme that refuses the first chunk.
abbrev refusing : Scheme
refusing = record {
  State = Unit {0};
  Signature = Unit {0};
  Error = Unit {0};
  init = ok tt;
  consume_chunk = λ s c. err tt;
  finalize = λ s. ok s;
  verify = λ s. verify_default s;
}

abbrev at_end : Poll (Option (Result ⊥ Bytes)) → Poll (Result ⊥ (Unit {0}))
at_end (ready none) = ready (ok tt)
at_end _ = pending

abbrev to_the_end : Inner ⊥ ⊥
to_the_end = record {
  Future = Unit {0};
  Value = Unit {0};
  poll_future = λ fut f. (fut, ((poll_tap f).0, at_end (poll_tap f).1));
  holds_proxy = λ fut. true;
  only_taps = λ fut f. polls rests;
}

abbrev halves : Payload ⊥
halves = chunk (text "ab") ∷ (wait ∷ (chunk (text "cd") ∷ []))

-- The task runs between two polls of the extractor, and behind them.
abbrev mixed : List Turn
mixed = body ∷ (task ∷ (hash ∷ (body ∷ (body ∷ (body ∷ (task ∷ (task ∷ (hash ∷ []))))))))

signs :
    from_request keeping to_the_end halves tt mixed
    ≡ ([], returns (ok (record { extractor = tt; signature = text "abcd" })))
unfolding from_request started spawned take_turns turn body_turn body_polled both_done hash_turn
    task_turn consumed poll_tap poll_tap_from send_chunk tapped verify_default
signs = refl

from_request-Refines_example :
    Refines keeping to_the_end halves
      (from_request keeping to_the_end halves tt mixed).0
      (from_request keeping to_the_end halves tt mixed).1
from_request-Refines_example = from_request-Refines keeping to_the_end halves tt mixed

-- A failure of the scheme drops the receiver, and the next chunk that the extractor reads finds the
-- channel closed: the request panics where it should be answered with the scheme's error.
refusal_panics :
    (from_request refusing to_the_end halves tt (body ∷ (task ∷ (body ∷ (body ∷ []))))).1 ≡ panics
unfolding from_request started spawned take_turns turn body_turn body_polled task_turn consumed
    poll_tap poll_tap_from send_chunk tapped
refusal_panics = refl

take_turns-completes_example :
    (take_turns keeping to_the_end
      (task_then_hash 2)
      (body_done keeping to_the_end tt (text "ab") (text "cd" ∷ []) [] false)).1
    ≡ returns (ok (record { extractor = tt; signature = text "abcd" }))
unfolding verify_default
take_turns-completes_example =
    take_turns-completes keeping to_the_end tt 2 (text "ab") (text "cd" ∷ []) [] false (omega arith)
