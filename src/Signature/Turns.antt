-- ===== src/Signature/Turns.antt =====
-- Each turn of request_signature.rs keeps what holds between the task, the channel and the stream.
use actix_web_lab.Signature.Channel.{Inner, Tap}
use actix_web_lab.Signature.Following.{
  Follows, TaskFollows, IsSigned, Keeps, TaskFollows-Sends, digesting-inverts, taken-inverts,
  finished-inverts, Refines,
}
use actix_web_lab.Bytes.{Bytes}
use actix_web_lab.Signature.Folding.{signed, chunks, Sends, fold, Taps-Sends}
use actix_web_lab.Payload.{Payload, returns, waits, panics}
use actix_web_lab.Signature.{
  Scheme, TaskOf, Joining, Turned, digesting, finished, consumed, task_turn, both_done, Branch,
  body_polled, hash_turn, turn, joined, body_turn, running, Turn, body, hash, with_body, task_step,
  then_turn, task,
}
use actix_web_lab.Common.{
  List, Option, ◌≡◌, ok, ◌++◌, false, err, ◌∙◌, some, none, [], ap, Result, refl, sym, ◌>>=◌, subst,
  ◌∷◌, if_holds, Bool, Poll, append_assoc, ready, ◌||◌, pending,
}

module _ (scheme : Scheme) {E Error : Type 0} (x : Inner E Error) (payload : Payload E) where
  -- The chunks of a queue, of which the first was just consumed with this result.
  pub consumed-Follows :
      (given : Payload E) (r : Result scheme.Error scheme.State) (queue : List Bytes)
      (j : Joining scheme x)
      → payload ≡ given ++ j.tap.orig
      → j.tap.panicked ≡ false
      → j.tap.closed ≡ false
      → j.hash_done ≡ none
      → fold scheme r queue ≡ fold scheme scheme.init (chunks given)
      → Follows scheme x payload (consumed scheme x r queue j)
  unfolding consumed
  consumed-Follows given (ok s) queue j orig calm open_end untaken k = record {
    given = given;
    orig = orig;
    calm = calm;
    folded = rw untaken (open_end, k);
  }
  consumed-Follows given (err e) queue j orig calm open_end untaken k = record {
    given = given;
    orig = orig;
    calm = calm;
    folded = rw untaken (refl, ap (λ r. r >>= scheme.finalize) (sym k));
  }

  pub task_turn-Follows :
      (s : scheme.State) (queue : List Bytes) (j : Joining scheme x)
      → j.task_state ≡ digesting s
      → j.tap.queue ≡ queue
      → Follows scheme x payload j
      → Follows scheme x payload (task_turn scheme x s queue j)
  unfolding task_turn
  task_turn-Follows s [] j at empty h =
      let now = subst (λ t. TaskFollows scheme x payload h.given t j.hash_done j.tap) at h.folded in
      let (untaken, open_end, k) =
        digesting-inverts scheme x payload h.given s j.hash_done j.tap now in
      if_holds (Follows scheme x payload) j.tap.dropped
        (λ gone. record {
          given = h.given;
          orig = h.orig;
          calm = h.calm;
          folded = rw untaken (
            refl,
            ap (λ r. r >>= scheme.finalize) (sym (ap (fold scheme (ok s)) (sym empty) ∙ k)),
          );
        })
        (λ there. h)
  task_turn-Follows s (c ∷ queue) j at waiting_chunks h =
      let now = subst (λ t. TaskFollows scheme x payload h.given t j.hash_done j.tap) at h.folded in
      let (untaken, open_end, k) =
        digesting-inverts scheme x payload h.given s j.hash_done j.tap now in
      consumed-Follows h.given (scheme.consume_chunk s c) queue j h.orig h.calm open_end untaken
        (ap (fold scheme (ok s)) (sym waiting_chunks) ∙ k)

  pub with_body-IsSigned :
      (given : Payload E) (t : x.Value) (r : Result scheme.Error scheme.Signature)
      → signed scheme (chunks given) ≡ r
      → IsSigned scheme x payload given (with_body scheme x t r)
  with_body-IsSigned given t (ok s) k = k
  with_body-IsSigned given t (err e) k = k

  pub both_done-Keeps :
      (j : Joining scheme x) (b : Branch x.Future x.Value) (o : Option scheme.Signature)
      → j.hash_done ≡ o
      → Follows scheme x payload j
      → Keeps scheme x payload (both_done scheme x j b o)
  unfolding both_done
  both_done-Keeps j (joined t) (some s) at h =
      let now =
        subst (λ o. TaskFollows scheme x payload h.given j.task_state o j.tap) at h.folded in
      (
        h.given,
        h.orig,
        with_body-IsSigned h.given t (scheme.verify s) (
            ap (λ r. r >>= scheme.verify)
              (taken-inverts scheme x payload h.given j.task_state j.tap now)),
      )
  both_done-Keeps j (joined t) none at h = h
  both_done-Keeps j (running fut) o at h = h

  pub Follows-Sends :
      (j : Joining scheme x) (b : Branch x.Future x.Value) (g : Tap E) (dropped : Bool)
      → Sends j.tap g
      → g.panicked ≡ false
      → Follows scheme x payload j
      → Follows scheme x payload (record j { body_fut = b; tap = record g { dropped = dropped } })
  Follows-Sends j b g dropped s quiet h =
      let s' : Sends j.tap (record g { dropped = dropped }) = record {
        given = s.given;
        orig = s.orig;
        closed = s.closed;
        queue = s.queue;
        still = s.still;
        calm = s.calm;
      } in
      record {
        given = h.given ++ s.given;
        orig = h.orig ∙ ap (λ p. h.given ++ p) s.orig ∙ sym (append_assoc h.given s.given g.orig);
        calm = quiet;
        folded =
            TaskFollows-Sends scheme x payload h.given j.task_state j.hash_done s' quiet h.folded;
      }

  pub body_polled-Keeps :
      (fut : x.Future) (f : Tap E) (res : Poll (Result Error x.Value)) (j : Joining scheme x)
      → Sends j.tap f
      → Follows scheme x payload j
      → Keeps scheme x payload (body_polled scheme x fut f res j)
  unfolding body_polled
  body_polled-Keeps fut f pending j s h =
      if_holds (Keeps scheme x payload) f.panicked (λ loud. tt)
        (λ quiet. Follows-Sends j (running fut) f f.dropped s quiet h)
  body_polled-Keeps fut f (ready (err e)) j s h =
      if_holds (Keeps scheme x payload) f.panicked (λ loud. tt)
        (λ quiet. (
          h.given ++ s.given,
          h.orig ∙ ap (λ p. h.given ++ p) s.orig ∙ sym (append_assoc h.given s.given f.orig),
          tt,
        ))
  body_polled-Keeps fut f (ready (ok t)) j s h =
      if_holds (Keeps scheme x payload) f.panicked (λ loud. tt)
        (λ quiet.
          both_done-Keeps _ (joined t) j.hash_done refl
            (Follows-Sends j (joined t) f (f.dropped || x.holds_proxy fut) s quiet h))

  pub hash_turn-Keeps :
      (t : TaskOf scheme x) (j : Joining scheme x)
      → j.task_state ≡ t
      → Follows scheme x payload j
      → Keeps scheme x payload (hash_turn scheme x t j)
  unfolding hash_turn
  hash_turn-Keeps (digesting s) j at h = h
  hash_turn-Keeps (finished (err e)) j at h =
      let now = subst (λ t. TaskFollows scheme x payload h.given t j.hash_done j.tap) at h.folded in
      let (shut, k) = finished-inverts scheme x payload h.given j.hash_done j.tap now in
      (h.given, h.orig, ap (λ r. r >>= scheme.verify) k)
  hash_turn-Keeps (finished (ok s)) j at h =
      let now = subst (λ t. TaskFollows scheme x payload h.given t j.hash_done j.tap) at h.folded in
      let (shut, k) = finished-inverts scheme x payload h.given j.hash_done j.tap now in
      both_done-Keeps (record j { hash_done = some s }) j.body_fut (some s) refl
        (record { given = h.given; orig = h.orig; calm = h.calm; folded = rw at (shut, k, refl) })

  pub body_turn-Keeps :
      (b : Branch x.Future x.Value) (j : Joining scheme x)
      → Follows scheme x payload j
      → Keeps scheme x payload (body_turn scheme x b j)
  unfolding body_turn
  body_turn-Keeps (joined t) j h = h
  body_turn-Keeps (running fut) j h =
      let polled = x.poll_future fut j.tap in
      body_polled-Keeps polled.0 polled.1.0 polled.1.1 j (Taps-Sends (x.only_taps fut j.tap)) h

  pub task_step-Follows :
      (t : TaskOf scheme x) (j : Joining scheme x)
      → j.task_state ≡ t
      → Follows scheme x payload j
      → Follows scheme x payload (task_step scheme x t j)
  task_step-Follows (digesting s) j at h = task_turn-Follows s j.tap.queue j at refl h
  task_step-Follows (finished r) j at h = h

  pub turn-Keeps :
      (t : Turn) (j : Joining scheme x)
      → Follows scheme x payload j
      → Keeps scheme x payload (turn scheme x t j)
  unfolding turn
  turn-Keeps body j h = body_turn-Keeps j.body_fut j h
  turn-Keeps hash j h = hash_turn-Keeps j.task_state j refl h
  turn-Keeps task j h = task_step-Follows j.task_state j refl h

  pub then_turn-Refines :
      (turned : Turned scheme x) (rest : Joining scheme x → Turned scheme x)
      → Keeps scheme x payload turned
      → ((j : Joining scheme x)
          → Follows scheme x payload j
          → Refines scheme x payload (rest j).0.tap.orig (rest j).1)
      → Refines scheme x payload
          (then_turn scheme x turned rest).0.tap.orig
          (then_turn scheme x turned rest).1
  then_turn-Refines (j, waits) rest h later = later j h
  then_turn-Refines (j, panics) rest h later = tt
  then_turn-Refines (j, returns r) rest h later = h
