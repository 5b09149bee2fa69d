-- ===== src/Body/Writing.antt =====
-- What a writer of body_async_write.rs and the body do, step by step, and what the body gives once the writer
-- is gone.
mod Tests
use actix_web_lab.Bytes.{Bytes}
use actix_web_lab.Body.{writer, poll_write, poll_flush, poll_shutdown, poll_stream}
use actix_web_lab.Body.Channel.{Unbounded}
use actix_web_lab.Common.{
  ℕ, suc, zero, Bool, true, List, [], ◌∷◌, ◌++◌, map, length, take, Option, none, some, Result, ok,
  err, Poll, pending, ready, ◌≡◌, refl, ap, sym, ◌∙◌, subst, ◌-◌, arith, append-nil, append_assoc,
}

pub data WriterOp : Type 0 where
  write : Bytes → WriterOp
  flush shutdown poll_body : WriterOp

-- The channel, what the writer was told that it had written, and what the body gave
pub record Writing (Chan : Type 0) : Type 0 where
  pub chan : Chan
  pub written : List Bytes
  pub given : List Bytes

abbrev pub log_write : Bytes → Result (Unit {0}) ℕ → List Bytes → List Bytes
log_write buf (ok n) written = written ++ take n buf ∷ []
log_write buf (err e) written = written

take_all : (buf : Bytes) → take (length buf) buf ≡ buf
take_all [] = refl
take_all (b ∷ buf) = ap (◌∷◌ b) (take_all buf)

module _ (mpsc : Unbounded Bytes) (IoError : Type 0) where
  abbrev pub log_poll : Poll (Option (Result IoError Bytes)) → List Bytes → List Bytes
  log_poll pending given = given
  log_poll (ready none) given = given
  log_poll (ready (some (ok chunk))) given = given ++ chunk ∷ []
  log_poll (ready (some (err e))) given = given

  unfoldable pub step : WriterOp → Writing mpsc.Chan → Writing mpsc.Chan
  step (write buf) w = record {
    chan = (poll_write mpsc buf w.chan).0;
    written = log_write buf (poll_write mpsc buf w.chan).1 w.written;
    given = w.given;
  }
  step flush w = record w { chan = (poll_flush mpsc w.chan).0 }
  step shutdown w = record w { chan = (poll_shutdown mpsc w.chan).0 }
  step poll_body w = record {
    chan = (poll_stream mpsc {IoError = IoError} w.chan).0;
    written = w.written;
    given = log_poll (poll_stream mpsc w.chan).1 w.given;
  }

  abbrev pub run_ops : List WriterOp → Writing mpsc.Chan → Writing mpsc.Chan
  run_ops [] w = w
  run_ops (op ∷ ops) w = run_ops ops (step op w)

  abbrev pub start : Writing mpsc.Chan
  start = record { chan = writer mpsc; written = []; given = [] }

  -- The answers to so many polls of the body
  abbrev pub polls : ℕ → mpsc.Chan → List (Poll (Option (Result IoError Bytes)))
  polls zero c = []
  polls (suc n) c = (poll_stream mpsc c).1 ∷ polls n (poll_stream mpsc {IoError = IoError} c).0

  abbrev pub gives : Bytes → Poll (Option (Result IoError Bytes))
  gives chunk = ready (some (ok chunk))

  -- One writer and the body, with what is written and not yet given
  pub record IsOpen (w : Writing mpsc.Chan) : Type 0 where
    pub reads : mpsc.receiving w.chan ≡ true
    pub one : mpsc.senders w.chan ≡ 1
    pub in_order : w.written ≡ w.given ++ mpsc.queue w.chan

  polled-IsOpen :
      (w : Writing mpsc.Chan) (q : List Bytes)
      → mpsc.queue w.chan ≡ q
      → IsOpen w
      → IsOpen (step poll_body w)
  unfolding step poll_stream
  polled-IsOpen w [] empty h =
      let waits = mpsc.recv_pending w.chan empty (rw h.one (omega arith)) in rw waits h
  polled-IsOpen w (chunk ∷ rest) at h =
      let (given, queue) = mpsc.recv_some w.chan chunk rest at in
      record {
        reads = mpsc.recv_receiving w.chan ∙ h.reads;
        one = mpsc.recv_senders w.chan ∙ h.one;
        in_order =
            rw (given, queue)
              (h.in_order
                ∙ ap (λ q. w.given ++ q) at
                ∙ sym (append_assoc w.given (chunk ∷ []) rest));
      }

  step-IsOpen : (op : WriterOp) (w : Writing mpsc.Chan) → IsOpen w → IsOpen (step op w)
  unfolding step poll_write poll_flush poll_shutdown
  step-IsOpen (write buf) w h =
      let (told, queue) = mpsc.send_open buf w.chan h.reads in
      record {
        reads = mpsc.send_receiving buf w.chan ∙ h.reads;
        one = mpsc.send_senders buf w.chan ∙ h.one;
        in_order =
            rw (told, queue, take_all buf)
              (ap (λ l. l ++ buf ∷ []) h.in_order
                ∙ append_assoc w.given (mpsc.queue w.chan) (buf ∷ []));
      }
  step-IsOpen flush w h = h
  step-IsOpen shutdown w h = h
  step-IsOpen poll_body w h = polled-IsOpen w (mpsc.queue w.chan) refl h

  run_ops-IsOpen : (ops : List WriterOp) (w : Writing mpsc.Chan) → IsOpen w → IsOpen (run_ops ops w)
  run_ops-IsOpen [] w h = h
  run_ops-IsOpen (op ∷ ops) w h = run_ops-IsOpen ops (step op w) (step-IsOpen op w h)

  -- Without senders, a body gives what is in the channel and then ends.
  polls_closed :
      (q : List Bytes) (c : mpsc.Chan)
      → mpsc.queue c ≡ q
      → mpsc.senders c ≡ 0
      → polls (suc (length q)) c ≡ map gives q ++ ready none ∷ []
  unfolding poll_stream
  polls_closed [] c empty gone = rw (mpsc.recv_none c empty gone) refl
  polls_closed (chunk ∷ q) c at gone =
      let (given, queue) = mpsc.recv_some c chunk q at in
      rw given (
        ap (◌∷◌ (gives chunk))
          (polls_closed q (mpsc.poll_recv c).0 queue (mpsc.recv_senders c ∙ gone)))

  -- However writes, flushes, shutdowns and polls of the body alternate: once the writer is dropped, the body
  -- gives the written buffers that it has not yet given, in order, and then ends.
  pub run_ops-polls :
      (ops : List WriterOp)
      → (rest : List Bytes) × ((run_ops ops start).written ≡ (run_ops ops start).given ++ rest)
        × (polls (suc (length rest)) (mpsc.drop_tx (run_ops ops start).chan)
            ≡ map gives rest ++ ready none ∷ [])
  unfolding writer
  run_ops-polls ops =
      let (empty, one, reads) = mpsc.starts in
      let h =
        run_ops-IsOpen ops start (record { reads = reads; one = one; in_order = sym empty }) in
      let w = run_ops ops start in
      (
        mpsc.queue w.chan,
        h.in_order,
        polls_closed (mpsc.queue w.chan) (mpsc.drop_tx w.chan) (mpsc.drop_tx_queue w.chan)
            (mpsc.drop_tx_senders w.chan ∙ ap (λ n. n - 1) h.one),
      )
