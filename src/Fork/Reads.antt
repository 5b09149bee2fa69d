-- ===== src/Fork/Reads.antt =====
-- What whoever holds the proxy can do with it, and what that leaves in the channel.
use actix_web_lab.Common.{
  Bool, Poll, Result, true, List, [], ◌∷◌, ◌++◌, append-nil, append_assoc, ◌≡◌, refl, sym, ap, ◌∙◌,
}
use actix_web_lab.Payload.{Payload, chunk, fail, wait}
use actix_web_lab.Fork.{Copied, copied, failed, Fork, sent, poll_proxy_from, poll_proxy}

-- Any number of polls of the proxy; and it may be dropped.
pub data Reads {E : Type 0} : Fork E → Fork E → Type 0 where
  rests : {f : Fork E} → Reads f f
  polls : {f g : Fork E} → Reads (poll_proxy f).0 g → Reads f g
  drops : {f g : Fork E} → Reads (record f { dropped = true }) g → Reads f g

-- An extractor that is given the proxy: its futures, a poll of them, which cannot do more with the
-- fork than read and drop the proxy, and whether a future has the proxy in it.
pub record Extractor (E Error : Type 0) : Type 1 where
  pub Future : Type 0
  pub Value : Type 0
  pub poll_future : Future → Fork E → Future × (Fork E × Poll (Result Error Value))
  pub holds_proxy : Future → Bool
  pub only_reads : (fut : Future) (f : Fork E) → Reads f (poll_future fut f).1.0

-- The copies that the channel is sent for what the stream gave.
abbrev pub copies : {E : Type 0} → Payload E → List Copied
copies [] = []
copies (wait ∷ rest) = copies rest
copies (chunk c ∷ rest) = copied c ∷ copies rest
copies (fail e ∷ rest) = failed ∷ copies rest

pub copies-append : {E : Type 0} (a b : Payload E) → copies (a ++ b) ≡ copies a ++ copies b
copies-append [] b = refl
copies-append (wait ∷ a) b = copies-append a b
copies-append (chunk c ∷ a) b = ap (◌∷◌ (copied c)) (copies-append a b)
copies-append (fail e ∷ a) b = ap (◌∷◌ failed) (copies-append a b)

-- Between two states of a fork the stream gave these turns, and their copies were sent.
pub record Gives {E : Type 0} (f g : Fork E) : Type 0 where
  pub given : Payload E
  pub orig : f.orig ≡ given ++ g.orig
  pub queue : g.queue ≡ f.queue ++ copies given

module _ {E : Type 0} where
  pub Gives-trans : {f g h : Fork E} → Gives f g → Gives g h → Gives f h
  Gives-trans {f} {g} {h} a b = record {
    given = a.given ++ b.given;
    orig = a.orig ∙ ap (λ p. a.given ++ p) b.orig ∙ sym (append_assoc a.given b.given h.orig);
    queue =
        b.queue
        ∙ ap (λ q. q ++ copies b.given) a.queue
        ∙ append_assoc f.queue (copies a.given) (copies b.given)
        ∙ ap (λ q. f.queue ++ q) (sym (copies-append a.given b.given));
  }

  poll_proxy_from-Gives :
      (arrivals : Payload E) (f : Fork E)
      → f.orig ≡ arrivals
      → Gives f (poll_proxy_from arrivals f).0
  unfolding poll_proxy_from sent
  poll_proxy_from-Gives [] f h = record {
    given = [];
    orig = refl;
    queue = sym (append-nil f.queue);
  }
  poll_proxy_from-Gives (wait ∷ rest) f h = record {
    given = wait ∷ [];
    orig = h;
    queue = sym (append-nil f.queue);
  }
  poll_proxy_from-Gives (chunk c ∷ rest) f h = record {
    given = chunk c ∷ [];
    orig = h;
    queue = refl;
  }
  poll_proxy_from-Gives (fail e ∷ rest) f h = record { given = fail e ∷ []; orig = h; queue = refl }

  -- The channel is sent a copy of each chunk and each error that the stream gives, in order.
  pub Reads-Gives : {f g : Fork E} → Reads f g → Gives f g
  unfolding poll_proxy
  Reads-Gives {f} rests = record { given = []; orig = refl; queue = sym (append-nil f.queue) }
  Reads-Gives {f} (polls r) = Gives-trans (poll_proxy_from-Gives f.orig f refl) (Reads-Gives r)
  Reads-Gives {f} (drops r) =
      let later = Reads-Gives r in
      record { given = later.given; orig = later.orig; queue = later.queue }
