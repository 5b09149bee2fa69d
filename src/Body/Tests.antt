-- ===== src/Body/Tests.antt =====
-- The theorem on channel bodies, with a channel that is a list.
use actix_web_lab.Body.Operations.{
  send_chunk, run_ops, step, Op, nothing_yet, clone_sender, poll_body, close_with, drop_body,
}
use actix_web_lab.Text.{text}
use actix_web_lab.Body.Channel.{listed}
use actix_web_lab.Body.{poll_stream, send, poll_write, close, writer, poll_next, channel, err}
use actix_web_lab.Body.Fifo.{IsFifo, run_ops-IsFifo}
use actix_web_lab.Common.{List, ℕ, ◌≡◌, ready, some, ok, refl, ◌∷◌, err, [], false}

-- Two senders; the body is dropped behind the first chunk, and with it an error that lay unread.
abbrev two_senders : List (Op ℕ)
two_senders =
    send_chunk (text "a")
    ∷ (clone_sender
        ∷ (poll_body
            ∷ (close_with (some 5) ∷ (drop_body ∷ (send_chunk (text "b") ∷ (poll_body ∷ []))))))

two_senders_log : (run_ops listed two_senders (channel listed, nothing_yet)).1 ≡ record {
  accepted = ok (text "a") ∷ (err 5 ∷ []);
  delivered = ok (text "a") ∷ [];
  refused = ok (text "b") ∷ [];
  returned = ok (text "b") ∷ [];
  lost = err 5 ∷ [];
  crashed = false;
}
unfolding step send close poll_next channel
two_senders_log = refl

run_ops-IsFifo_example : IsFifo listed (run_ops listed two_senders (channel listed, nothing_yet))
run_ops-IsFifo_example = run_ops-IsFifo listed two_senders

-- A writer: what is written comes out, and a body without senders ends.
written :
    (poll_stream listed {IoError = ℕ} (poll_write listed (text "abc") (writer listed)).0).1
    ≡ ready (some (ok (text "abc")))
unfolding poll_stream poll_write writer
written = refl
