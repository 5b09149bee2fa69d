-- ===== src/Russe/Client.antt =====
-- The manager of requests of russe/src/reqwest_0_12.rs. The reqwest crate is a parameter: whether a
-- request can be cloned; and tokio's channel is an interface.
use actix_web_lab.Text.{Text}
use actix_web_lab.Body.Channel.{Unbounded}
use actix_web_lab.Common.{
  List, Option, some, Bool, ◌∷◌, ◌≡◌, none, if◌then◌else◌, false, true, [], ◌++◌, Option-cases, sym,
  inl, append-nil, ap, ◌∙◌, inr, append_assoc, if_holds, refl,
}

module _ {Request Item : Type 0} (mpsc : Unbounded Item)
    (try_clone : Request → Option Request) where
  -- `tx` and `rx` are the ends of one channel; of `rx` there is whether it was taken. And the requests
  -- for which a task was spawned.
  pub record Manager : Type 0 where
    pub req : Request
    pub last_event_id : Option Text
    pub channel : mpsc.Chan
    pub rx_taken : Bool
    pub spawned : List Request

  abbrev pub made : Option Request → Option Manager
  made none = none
  made (some req) = some (record {
    req = req;
    last_event_id = none;
    channel = mpsc.unbounded_channel;
    rx_taken = false;
    spawned = [];
  })

  -- No manager is a panic, of a request that cannot be cloned.
  unfoldable pub new : Request → Option Manager
  new req = made (try_clone req)

  abbrev pub take_rx : Manager → Manager × Bool
  take_rx m = if m.rx_taken then (m, false) else (record m { rx_taken = true }, true)

  abbrev pub send_with : Option Request → Manager → Manager × Bool
  send_with none m = (m, false)
  send_with (some req) m =
      take_rx (record m { channel = mpsc.clone_tx m.channel; spawned = m.spawned ++ req ∷ [] })

  -- Whether the receiver is returned; if not, that is a panic. The task is spawned before the
  -- receiver is taken.
  unfoldable pub send : Manager → Manager × Bool
  send m = send_with (try_clone m.req) m

  -- The loop of a task, whatever becomes of a send
  unfoldable pub forward : List Item → mpsc.Chan → mpsc.Chan
  forward [] c = c
  forward (item ∷ items) c = forward items (mpsc.send item c).0

  unfoldable pub commit_id : Text → Manager → Manager
  commit_id id m = record m { last_event_id = some id }

  -- What a stream of events gives is put on the channel whole and in order, as long as there is a
  -- receiver.
  pub forward-queue :
      (items : List Item) (c : mpsc.Chan)
      → mpsc.receiving c ≡ true
      → mpsc.queue (forward items c) ≡ mpsc.queue c ++ items
  unfolding forward
  forward-queue [] c h = sym (append-nil (mpsc.queue c))
  forward-queue (item ∷ items) c h =
      let (sent, queue) = mpsc.send_open item c h in
      forward-queue items (mpsc.send item c).0 (mpsc.send_receiving item c ∙ h)
      ∙ ap (λ q. q ++ items) queue
      ∙ append_assoc (mpsc.queue c) (item ∷ []) items

  -- A second call gives no receiver.
  pub send_twice : (m : Manager) → m.rx_taken ≡ true → (send m).1 ≡ false
  unfolding send
  send_twice m h = elim (Option-cases (try_clone m.req)) [
    | inl lost ↦ ap (λ r. (send_with r m).1) lost
    | inr (req, cloned) ↦
        ap (λ r. (send_with r m).1) cloned
        ∙ if_holds {A = Manager × Bool} (λ p. p.1 ≡ false) m.rx_taken (λ taken. refl) (λ there. cc)
  ]
