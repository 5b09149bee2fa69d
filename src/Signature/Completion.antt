-- ===== src/Signature/Completion.antt =====
-- That the future of request_signature.rs is done, once the inner extractor is and the task has had
-- turns enough.
use actix_web_lab.Signature.Channel.{Inner, Tap}
use actix_web_lab.Signature.Folding.{fold}
use actix_web_lab.Payload.{Payload, returns}
use actix_web_lab.Bytes.{Bytes}
use actix_web_lab.Signature.{
  Scheme, Turn, hash, take_turns, consumed, Out, turn, hash_turn, task_turn, Joining, signature,
  task, joined, with_body, digesting, finished, Inner,
}
use actix_web_lab.Common.{
  List, ℕ, Result, ◌∷◌, [], Bool, err, suc, ◌≡◌, length, ok, ◌<◌, none, zero, ◌>>=◌, true, arith,
  refl, false,
}

-- So many turns of the task, and then a poll of its handle.
abbrev pub task_then_hash : ℕ → List Turn
task_then_hash zero = hash ∷ []
task_then_hash (suc n) = task ∷ task_then_hash n

module _ (scheme : Scheme) {E Error : Type 0} (x : Inner E Error) (t : x.Value) where
  -- The extractor has given its value, and the proxy is gone.
  abbrev pub body_done : scheme.State → List Bytes → Payload E → Bool → Joining scheme x
  body_done s queue orig panicked = record {
    body_fut = joined t;
    hash_done = none;
    task_state = digesting s;
    tap = record {
      orig = orig;
      queue = queue;
      dropped = true;
      closed = false;
      panicked = panicked;
    };
  }

  -- The future's result where the task's is this.
  abbrev pub completed : Result scheme.Error scheme.Signature → Out scheme x
  completed (err e) = err (signature e)
  completed (ok s) = with_body scheme x t (scheme.verify s)

  idle :
      (n : ℕ) (r : Result scheme.Error scheme.Signature) (f : Tap E)
      → (take_turns scheme x
          (task_then_hash n)
          (record { body_fut = joined t; hash_done = none; task_state = finished r; tap = f })).1
        ≡ returns (completed r)
  unfolding take_turns turn hash_turn
  idle zero (ok s) f = refl
  idle zero (err e) f = refl
  idle (suc n) r f = idle n r f

  after_consume :
      (n : ℕ) (r : Result scheme.Error scheme.State) (queue : List Bytes) (s : scheme.State)
      (queue' : List Bytes) (orig : Payload E) (panicked : Bool)
      → ((s : scheme.State)
          → (take_turns scheme x (task_then_hash n) (body_done s queue orig panicked)).1
            ≡ returns (completed (fold scheme (ok s) queue >>= scheme.finalize)))
      → (take_turns scheme x
          (task_then_hash n)
          (consumed scheme x r queue (body_done s queue' orig panicked))).1
        ≡ returns (completed (fold scheme r queue >>= scheme.finalize))
  unfolding consumed
  after_consume n (err e) queue s queue' orig panicked ih = idle n (err e) _
  after_consume n (ok s') queue s queue' orig panicked ih = ih s'

  -- Once the inner extractor has given its value and the proxy is gone, more turns of the task than
  -- there are chunks in the channel, and a poll of the task's handle, end the future: with the
  -- value and the verified signature of what was folded and of those chunks, or with the first
  -- error of the scheme.
  pub take_turns-completes :
      (n : ℕ) (s : scheme.State) (queue : List Bytes) (orig : Payload E) (panicked : Bool)
      → length queue < n
      → (take_turns scheme x (task_then_hash n) (body_done s queue orig panicked)).1
        ≡ returns (completed (fold scheme (ok s) queue >>= scheme.finalize))
  unfolding take_turns turn task_turn
  take_turns-completes zero s queue orig panicked h = absurd (omega arith)
  take_turns-completes (suc n) s [] orig panicked h = idle n (scheme.finalize s) _
  take_turns-completes (suc n) s (c ∷ queue) orig panicked h =
      after_consume n (scheme.consume_chunk s c) queue s (c ∷ queue) orig panicked
        (λ s'. take_turns-completes n s' queue orig panicked (omega arith))
