-- ===== src/Body/Writing/Tests.antt =====
-- The theorem on writers, at one that goes on behind its shutdown.
use actix_web_lab.Text.{text}
use actix_web_lab.Bytes.{Bytes}
use actix_web_lab.Body.{writer, poll_write, poll_flush, poll_shutdown, poll_stream}
use actix_web_lab.Body.Channel.{listed}
use actix_web_lab.Body.Writing.{
  WriterOp, write, flush, shutdown, poll_body, step, run_ops, start, polls, gives, run_ops-polls,
}
use actix_web_lab.Common.{ℕ, suc, List, [], ◌∷◌, ◌++◌, map, length, none, ready, ◌≡◌, refl}

-- A writer that writes again after its shutdown, while the body is polled
abbrev shut_early : List WriterOp
shut_early =
    write (text "a") ∷ (poll_body ∷ (shutdown ∷ (write (text "bc") ∷ (flush ∷ (write [] ∷ [])))))

run_ops-polls_example :
    (rest : List Bytes) × ((run_ops listed ℕ shut_early (start listed ℕ)).written
      ≡ (run_ops listed ℕ shut_early (start listed ℕ)).given ++ rest)
    × (polls listed ℕ
          (suc (length rest))
          (listed.drop_tx (run_ops listed ℕ shut_early (start listed ℕ)).chan)
        ≡ map (gives listed ℕ) rest ++ ready none ∷ [])
run_ops-polls_example = run_ops-polls listed ℕ shut_early

-- A shutdown does not end the body: what is written behind it is accepted.
after_shutdown :
    (run_ops listed ℕ shut_early (start listed ℕ)).written ≡ text "a" ∷ (text "bc" ∷ ([] ∷ []))
unfolding step poll_write writer poll_flush poll_shutdown poll_stream
after_shutdown = refl
