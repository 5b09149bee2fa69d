-- ===== src/Body/Fifo.antt =====
-- What the body of body_channel.rs gives, whatever its senders and its reader do and in any order.
use actix_web_lab.Body.Operations.{
  step, clone_sender, drop_sender, poll_body, drop_body, Log, send_chunk, log_closed, close_with,
  log_polled, Op, log_sent, run_ops, nothing_yet,
}
use actix_web_lab.Body.{send, close, poll_next, close_result, channel, send_result}
use actix_web_lab.Body.Channel.{Unbounded}
use actix_web_lab.Bytes.{Bytes}
use actix_web_lab.Common.{
  List, Result, [], Option, false, ◌∷◌, if◌then◌else◌, ◌≡◌, ◌++◌, Bool-cases, inl, inr, none, err,
  true, ◌∙◌, ap, subst, if_holds, ℕ, ◌⊎◌, sym, append_assoc, ◌<◌, suc, refl, arith, zero, some, ok,
}

zero_or_more : (n : ℕ) → (n ≡ 0) ⊎ (0 < n)
zero_or_more zero = inl refl
zero_or_more (suc n) = inr (omega arith)

module _ {E : Type 0} (mpsc : Unbounded (Result E Bytes)) where
  abbrev pub unread : mpsc.Chan × Log E → List (Result E Bytes)
  unread (c, log) = if mpsc.receiving c then mpsc.queue c else log.lost

  pub record IsFifo (s : mpsc.Chan × Log E) : Type 0 where
    pub in_order : s.1.accepted ≡ s.1.delivered ++ unread s
    pub given_back : s.1.returned ≡ s.1.refused
    pub no_crash : s.1.crashed ≡ false

  -- A channel that differs from another in its senders alone.
  alike-IsFifo :
      (c c' : mpsc.Chan) (log : Log E)
      → mpsc.queue c' ≡ mpsc.queue c
      → mpsc.receiving c' ≡ mpsc.receiving c
      → IsFifo (c, log)
      → IsFifo (c', log)
  alike-IsFifo c c' log queue receiving h = record {
    in_order =
        h.in_order
        ∙ ap (λ q. log.delivered ++ q)
            (ap (λ q. if mpsc.receiving c then q else log.lost) (sym queue)
              ∙ ap (λ b. if b then mpsc.queue c' else log.lost) (sym receiving));
    given_back = h.given_back;
    no_crash = h.no_crash;
  }

  accepted-IsFifo :
      (item : Result E Bytes) (c : mpsc.Chan) (log : Log E)
      → mpsc.receiving c ≡ true
      → IsFifo (c, log)
      → IsFifo ((mpsc.send item c).0, record log { accepted = log.accepted ++ item ∷ [] })
  accepted-IsFifo item c log reads h =
      let (sent, queue) = mpsc.send_open item c reads in
      record {
        in_order =
            ap (λ q. q ++ item ∷ [])
              (h.in_order ∙ ap (λ b. log.delivered ++ (if b then mpsc.queue c else log.lost)) reads)
            ∙ append_assoc log.delivered (mpsc.queue c) (item ∷ [])
            ∙ ap (λ q. log.delivered ++ q)
                (sym queue
                  ∙ ap (λ b. if b then mpsc.queue (mpsc.send item c).0 else log.lost)
                      (sym (mpsc.send_receiving item c ∙ reads)));
        given_back = h.given_back;
        no_crash = h.no_crash;
      }

  refused-IsFifo :
      (item : Result E Bytes) (c : mpsc.Chan) (log : Log E)
      → IsFifo (c, log)
      → IsFifo (
        c,
        record log { refused = log.refused ++ item ∷ []; returned = log.returned ++ item ∷ [] },
      )
  refused-IsFifo item c log h = record {
    in_order = h.in_order;
    given_back = ap (λ q. q ++ item ∷ []) h.given_back;
    no_crash = h.no_crash;
  }

  send-IsFifo :
      (chunk : Bytes) (c : mpsc.Chan) (log : Log E)
      → IsFifo (c, log)
      → IsFifo (step mpsc (send_chunk chunk) (c, log))
  unfolding step send
  send-IsFifo chunk c log h = elim (Bool-cases (mpsc.receiving c)) [
    | inl reads ↦
        subst (λ r. IsFifo ((mpsc.send (ok chunk) c).0, log_sent chunk (send_result r) log))
          (sym (mpsc.send_open (ok chunk) c reads).0) (accepted-IsFifo (ok chunk) c log reads h)
    | inr gone ↦
        subst (λ p. IsFifo (p.0, log_sent chunk (send_result p.1) log))
          (sym (mpsc.send_closed (ok chunk) c gone)) (refused-IsFifo (ok chunk) c log h)
  ]

  sent_error-IsFifo :
      (e : E) (c : mpsc.Chan) (log : Log E)
      → IsFifo (c, log)
      → IsFifo
          ((mpsc.send (err e) c).0, log_closed (some e) (close_result (mpsc.send (err e) c).1) log)
  sent_error-IsFifo e c log h = elim (Bool-cases (mpsc.receiving c)) [
    | inl reads ↦
        subst (λ r. IsFifo ((mpsc.send (err e) c).0, log_closed (some e) (close_result r) log))
          (sym (mpsc.send_open (err e) c reads).0) (accepted-IsFifo (err e) c log reads h)
    | inr gone ↦
        subst (λ p. IsFifo (p.0, log_closed (some e) (close_result p.1) log))
          (sym (mpsc.send_closed (err e) c gone)) (refused-IsFifo (err e) c log h)
  ]

  close-IsFifo :
      (e : Option E) (c : mpsc.Chan) (log : Log E)
      → IsFifo (c, log)
      → IsFifo (step mpsc (close_with e) (c, log))
  unfolding step close
  close-IsFifo none c log h =
      alike-IsFifo c (mpsc.drop_tx c) log (mpsc.drop_tx_queue c) (mpsc.drop_tx_receiving c) h
  close-IsFifo (some e) c log h =
      let c' = (mpsc.send (err e) c).0 in
      alike-IsFifo c' (mpsc.drop_tx c') _ (mpsc.drop_tx_queue c') (mpsc.drop_tx_receiving c')
        (sent_error-IsFifo e c log h)

  polled-IsFifo :
      (c : mpsc.Chan) (log : Log E) (queue : List (Result E Bytes))
      → mpsc.receiving c ≡ true
      → mpsc.queue c ≡ queue
      → IsFifo (c, log)
      → IsFifo ((mpsc.poll_recv c).0, log_polled (mpsc.poll_recv c).1 log)
  polled-IsFifo c log [] reads empty h = elim (zero_or_more (mpsc.senders c)) [
    | inl nobody ↦
        subst (λ p. IsFifo (p.0, log_polled p.1 log)) (sym (mpsc.recv_none c empty nobody)) h
    | inr somebody ↦
        subst (λ p. IsFifo (p.0, log_polled p.1 log)) (sym (mpsc.recv_pending c empty somebody)) h
  ]
  polled-IsFifo c log (item ∷ rest) reads at h =
      let (given, queue) = mpsc.recv_some c item rest at in
      subst (λ r. IsFifo ((mpsc.poll_recv c).0, log_polled r log)) (sym given)
        (record {
          in_order =
              h.in_order
              ∙ ap (λ b. log.delivered ++ (if b then mpsc.queue c else log.lost)) reads
              ∙ ap (λ q. log.delivered ++ q) at
              ∙ sym (append_assoc log.delivered (item ∷ []) rest)
              ∙ ap (λ q. (log.delivered ++ item ∷ []) ++ q)
                  (sym queue
                    ∙ ap (λ b. if b then mpsc.queue (mpsc.poll_recv c).0 else log.lost)
                        (sym (mpsc.recv_receiving c ∙ reads)));
          given_back = h.given_back;
          no_crash = h.no_crash;
        })

  step-IsFifo : (op : Op E) (s : mpsc.Chan × Log E) → IsFifo s → IsFifo (step mpsc op s)
  unfolding step poll_next
  step-IsFifo (send_chunk chunk) (c, log) h = send-IsFifo chunk c log h
  step-IsFifo (close_with e) (c, log) h = close-IsFifo e c log h
  step-IsFifo clone_sender (c, log) h =
      alike-IsFifo c (mpsc.clone_tx c) log (mpsc.clone_tx_queue c) (mpsc.clone_tx_receiving c) h
  step-IsFifo drop_sender (c, log) h =
      alike-IsFifo c (mpsc.drop_tx c) log (mpsc.drop_tx_queue c) (mpsc.drop_tx_receiving c) h
  step-IsFifo poll_body (c, log) h =
      if_holds IsFifo (mpsc.receiving c) (λ reads. polled-IsFifo c log (mpsc.queue c) reads refl h)
        (λ gone. h)
  step-IsFifo drop_body (c, log) h =
      if_holds IsFifo (mpsc.receiving c)
        (λ reads. record {
          in_order =
              h.in_order
              ∙ ap (λ b. log.delivered ++ (if b then mpsc.queue c else log.lost)) reads
              ∙ ap (λ b. log.delivered ++ (if b then mpsc.queue (mpsc.drop_rx c) else mpsc.queue c))
                  (sym (mpsc.drop_rx_receiving c));
          given_back = h.given_back;
          no_crash = h.no_crash;
        })
        (λ gone. h)

  run_ops-IsFifo_from :
      (ops : List (Op E)) (s : mpsc.Chan × Log E) → IsFifo s → IsFifo (run_ops mpsc ops s)
  run_ops-IsFifo_from [] s h = h
  run_ops-IsFifo_from (op ∷ ops) s h = run_ops-IsFifo_from ops (step mpsc op s) (step-IsFifo op s h)

  -- Whatever the senders, their clones and the reader do, and in any order: what the body has given
  -- and what it has still to give, or had when it was dropped, is what the channel took, in the
  -- order of the sends; a chunk or an error that is refused comes back as it was; and none of the
  -- two `unreachable!` is reached.
  pub run_ops-IsFifo : (ops : List (Op E)) → IsFifo (run_ops mpsc ops (channel mpsc, nothing_yet))
  unfolding channel
  run_ops-IsFifo ops =
      let (empty, one, reads) = mpsc.starts in
      run_ops-IsFifo_from ops (mpsc.unbounded_channel, nothing_yet)
        (record {
          in_order =
              sym (ap (λ b. if b then mpsc.queue mpsc.unbounded_channel else []) reads ∙ empty);
          given_back = refl;
          no_crash = refl;
        })
