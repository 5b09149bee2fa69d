-- ===== src/Body/Channel.antt =====
-- What body_channel.rs and body_async_write.rs use of tokio's unbounded channel, as an interface: it
-- keeps what is sent in order, until its receiver is dropped.
use actix_web_lab.Common.{
  refl, List, Result, ℕ, Bool, [], Poll, ◌++◌, ◌<◌, true, Option, ◌∷◌, ◌≡◌, suc, ok, ready, pending,
  ◌-◌, false, err, none, arith, some, ap, zero, ◌∙◌,
}

pub record Unbounded (A : Type 0) : Type 1 where
  pub Chan : Type 0
  pub unbounded_channel : Chan
  pub send : A → Chan → Chan × Result A (Unit {0})
  pub poll_recv : Chan → Chan × Poll (Option A)
  pub clone_tx : Chan → Chan
  pub drop_tx : Chan → Chan
  pub drop_rx : Chan → Chan
  -- what is sent and not received, how many senders there are, and whether there is a receiver
  pub queue : Chan → List A
  pub senders : Chan → ℕ
  pub receiving : Chan → Bool
  pub starts :
      (queue unbounded_channel ≡ [])
      × (senders unbounded_channel ≡ 1)
      × (receiving unbounded_channel ≡ true)
  pub send_open :
      (a : A) (c : Chan)
      → receiving c ≡ true
      → ((send a c).1 ≡ ok tt) × (queue (send a c).0 ≡ queue c ++ a ∷ [])
  pub send_closed : (a : A) (c : Chan) → receiving c ≡ false → send a c ≡ (c, err a)
  pub recv_some :
      (c : Chan) (a : A) (rest : List A)
      → queue c ≡ a ∷ rest
      → ((poll_recv c).1 ≡ ready (some a)) × (queue (poll_recv c).0 ≡ rest)
  pub recv_none : (c : Chan) → queue c ≡ [] → senders c ≡ 0 → poll_recv c ≡ (c, ready none)
  pub recv_pending : (c : Chan) → queue c ≡ [] → 0 < senders c → poll_recv c ≡ (c, pending)
  pub clone_tx_queue : (c : Chan) → queue (clone_tx c) ≡ queue c
  pub drop_tx_queue : (c : Chan) → queue (drop_tx c) ≡ queue c
  pub send_senders : (a : A) (c : Chan) → senders (send a c).0 ≡ senders c
  pub recv_senders : (c : Chan) → senders (poll_recv c).0 ≡ senders c
  pub drop_tx_senders : (c : Chan) → senders (drop_tx c) ≡ senders c - 1
  pub send_receiving : (a : A) (c : Chan) → receiving (send a c).0 ≡ receiving c
  pub recv_receiving : (c : Chan) → receiving (poll_recv c).0 ≡ receiving c
  pub clone_tx_receiving : (c : Chan) → receiving (clone_tx c) ≡ receiving c
  pub drop_tx_receiving : (c : Chan) → receiving (drop_tx c) ≡ receiving c
  pub drop_rx_receiving : (c : Chan) → receiving (drop_rx c) ≡ false

-- A channel as a list, where a dropped receiver leaves the queue behind.
pub record Listed (A : Type 0) : Type 0 where
  pub items : List A
  pub txs : ℕ
  pub reader : Bool

module _ {A : Type 0} where
  abbrev pub listed_send : A → Bool → Listed A → Listed A × Result A (Unit {0})
  listed_send a true c = (record c { items = c.items ++ a ∷ [] }, ok tt)
  listed_send a false c = (c, err a)

  abbrev pub listed_recv : List A → ℕ → Listed A → Listed A × Poll (Option A)
  listed_recv [] zero c = (c, ready none)
  listed_recv [] (suc n) c = (c, pending)
  listed_recv (a ∷ rest) n c = (record c { items = rest }, ready (some a))

  pub listed_pending : (n : ℕ) (c : Listed A) → 0 < n → listed_recv [] n c ≡ (c, pending)
  listed_pending zero c h = absurd (omega arith)
  listed_pending (suc n) c h = refl

  pub listed_send-reader :
      (a : A) (b : Bool) (c : Listed A) → (listed_send a b c).0.reader ≡ c.reader
  listed_send-reader a true c = refl
  listed_send-reader a false c = refl

  pub listed_recv-reader :
      (q : List A) (n : ℕ) (c : Listed A) → (listed_recv q n c).0.reader ≡ c.reader
  listed_recv-reader [] zero c = refl
  listed_recv-reader [] (suc n) c = refl
  listed_recv-reader (a ∷ rest) n c = refl

  pub listed_send-txs : (a : A) (b : Bool) (c : Listed A) → (listed_send a b c).0.txs ≡ c.txs
  listed_send-txs a true c = refl
  listed_send-txs a false c = refl

  pub listed_recv-txs : (q : List A) (n : ℕ) (c : Listed A) → (listed_recv q n c).0.txs ≡ c.txs
  listed_recv-txs [] zero c = refl
  listed_recv-txs [] (suc n) c = refl
  listed_recv-txs (a ∷ rest) n c = refl

  abbrev pub listed : Unbounded A
  listed = record {
    Chan = Listed A;
    unbounded_channel = record { items = []; txs = 1; reader = true };
    send = λ a c. listed_send a c.reader c;
    poll_recv = λ c. listed_recv c.items c.txs c;
    clone_tx = λ c. record c { txs = suc c.txs };
    drop_tx = λ c. record c { txs = c.txs - 1 };
    drop_rx = λ c. record c { reader = false };
    queue = λ c. c.items;
    senders = λ c. c.txs;
    receiving = λ c. c.reader;
    starts = (refl, refl, refl);
    send_open =
        λ a c h. (ap (λ b. (listed_send a b c).1) h, ap (λ b. (listed_send a b c).0.items) h);
    send_closed = λ a c h. ap (λ b. listed_send a b c) h;
    recv_some = λ c a rest h.
        (ap (λ q. (listed_recv q c.txs c).1) h, ap (λ q. (listed_recv q c.txs c).0.items) h);
    recv_none = λ c h k. ap (λ q. listed_recv q c.txs c) h ∙ ap (λ n. listed_recv [] n c) k;
    recv_pending = λ c h k. ap (λ q. listed_recv q c.txs c) h ∙ listed_pending c.txs c k;
    clone_tx_queue = λ c. refl;
    drop_tx_queue = λ c. refl;
    send_senders = λ a c. listed_send-txs a c.reader c;
    recv_senders = λ c. listed_recv-txs c.items c.txs c;
    drop_tx_senders = λ c. refl;
    send_receiving = λ a c. listed_send-reader a c.reader c;
    recv_receiving = λ c. listed_recv-reader c.items c.txs c;
    clone_tx_receiving = λ c. refl;
    drop_tx_receiving = λ c. refl;
    drop_rx_receiving = λ c. refl;
  }
