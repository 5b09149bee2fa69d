-- ===== src/Body/Operations.antt =====
-- The steps of the senders and the reader of a body of body_channel.rs, and a record of what came of
-- them.
use actix_web_lab.Body.{Sent, send, done, close, poll_next, unreachable}
use actix_web_lab.Body.Channel.{Unbounded}
use actix_web_lab.Bytes.{Bytes}
use actix_web_lab.Common.{
  List, Result, [], Option, Poll, Bool, false, ready, ◌∷◌, if◌then◌else◌, ◌++◌, pending, none, err,
  true, some, ok,
}

-- A step of someone: a send, a close, a clone and a drop of a sender; a poll of the body, and its
-- drop.
pub data Op (E : Type 0) : Type 0 where
  send_chunk : Bytes → Op E
  close_with : Option E → Op E
  clone_sender drop_sender poll_body drop_body : Op E

-- What was taken by the channel and what the body gave, what was refused and what came back for it,
-- what lay unread when the body was dropped, and whether a step came to `unreachable!`.
pub record Log (E : Type 0) : Type 0 where
  pub accepted : List (Result E Bytes)
  pub delivered : List (Result E Bytes)
  pub refused : List (Result E Bytes)
  pub returned : List (Result E Bytes)
  pub lost : List (Result E Bytes)
  pub crashed : Bool

abbrev pub nothing_yet : {E : Type 0} → Log E
nothing_yet = record {
  accepted = [];
  delivered = [];
  refused = [];
  returned = [];
  lost = [];
  crashed = false;
}

module _ {E : Type 0} where
  abbrev pub log_sent : Bytes → Sent Bytes → Log E → Log E
  log_sent chunk (done (ok u)) log = record log { accepted = log.accepted ++ ok chunk ∷ [] }
  log_sent chunk (done (err back)) log = record log {
    refused = log.refused ++ ok chunk ∷ [];
    returned = log.returned ++ ok back ∷ [];
  }
  log_sent chunk unreachable log = record log { crashed = true }

  abbrev pub log_closed : Option E → Sent E → Log E → Log E
  log_closed none r log = log
  log_closed (some e) (done (ok u)) log = record log { accepted = log.accepted ++ err e ∷ [] }
  log_closed (some e) (done (err back)) log = record log {
    refused = log.refused ++ err e ∷ [];
    returned = log.returned ++ err back ∷ [];
  }
  log_closed (some e) unreachable log = record log { crashed = true }

  abbrev pub log_polled : Poll (Option (Result E Bytes)) → Log E → Log E
  log_polled (ready (some item)) log = record log { delivered = log.delivered ++ item ∷ [] }
  log_polled (ready none) log = log
  log_polled pending log = log

  module _ (mpsc : Unbounded (Result E Bytes)) where
    -- A body that was dropped is neither polled nor dropped again.
    unfoldable pub step : Op E → mpsc.Chan × Log E → mpsc.Chan × Log E
    step (send_chunk chunk) (c, log) = let (c', r) = send mpsc chunk c in (c', log_sent chunk r log)
    step (close_with e) (c, log) = let (c', r) = close mpsc e c in (c', log_closed e r log)
    step clone_sender (c, log) = (mpsc.clone_tx c, log)
    step drop_sender (c, log) = (mpsc.drop_tx c, log)
    step poll_body (c, log) =
        let (c', r) = poll_next mpsc c in
        if mpsc.receiving c then (c', log_polled r log) else (c, log)
    step drop_body (c, log) =
        if mpsc.receiving c then (mpsc.drop_rx c, record log { lost = mpsc.queue c }) else (c, log)

    abbrev pub run_ops : List (Op E) → mpsc.Chan × Log E → mpsc.Chan × Log E
    run_ops [] s = s
    run_ops (op ∷ ops) s = run_ops ops (step op s)
