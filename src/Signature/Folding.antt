-- ===== src/Signature/Folding.antt =====
-- What a signature of request_signature.rs is meant to be, with no channel and no task: the scheme's
-- functions one after another. And what the proxy leaves in the channel.
use actix_web_lab.Signature.Channel.{
  Tap, poll_tap_from, poll_tap, send_chunk, Taps, polls, drops, rests,
}
use actix_web_lab.Bytes.{Bytes}
use actix_web_lab.Payload.{Payload, chunk, fail, wait}
use actix_web_lab.Signature.{Scheme}
use actix_web_lab.Common.{
  List, Result, ◌≡◌, ◌++◌, err, [], ◌>>=◌, ◌∷◌, false, ◌∙◌, sym, ok, true, ap, append-nil,
  append_assoc, refl, Bool, if◌then◌else◌,
}

module _ (scheme : Scheme) where
  abbrev pub fold : Result scheme.Error scheme.State → List Bytes → Result scheme.Error scheme.State
  fold (err e) cs = err e
  fold (ok s) [] = ok s
  fold (ok s) (c ∷ cs) = fold (scheme.consume_chunk s c) cs

  pub fold-append :
      (r : Result scheme.Error scheme.State) (a b : List Bytes)
      → fold r (a ++ b) ≡ fold (fold r a) b
  fold-append (err e) a b = refl
  fold-append (ok s) [] b = refl
  fold-append (ok s) (c ∷ a) b = fold-append (scheme.consume_chunk s c) a b

  pub fold-nil : (r : Result scheme.Error scheme.State) → fold r [] ≡ r
  fold-nil (err e) = refl
  fold-nil (ok s) = refl

  -- The signature of a sequence of chunks, and the one that is verified.
  abbrev pub sign : List Bytes → Result scheme.Error scheme.Signature
  sign cs = fold scheme.init cs >>= scheme.finalize

  abbrev pub signed : List Bytes → Result scheme.Error scheme.Signature
  signed cs = sign cs >>= scheme.verify

-- The chunks that a stream gave.
abbrev pub chunks : {E : Type 0} → Payload E → List Bytes
chunks [] = []
chunks (wait ∷ rest) = chunks rest
chunks (chunk c ∷ rest) = c ∷ chunks rest
chunks (fail e ∷ rest) = chunks rest

pub chunks-append : {E : Type 0} (a b : Payload E) → chunks (a ++ b) ≡ chunks a ++ chunks b
chunks-append [] b = refl
chunks-append (wait ∷ a) b = chunks-append a b
chunks-append (chunk c ∷ a) b = ap (◌∷◌ c) (chunks-append a b)
chunks-append (fail e ∷ a) b = chunks-append a b

-- Between two states of a tap the stream gave these turns. Their chunks wait in the channel, if its
-- receiver is there; if it is not, there were none, or a send has failed.
pub record Sends {E : Type 0} (f g : Tap E) : Type 0 where
  pub given : Payload E
  pub orig : f.orig ≡ given ++ g.orig
  pub closed : g.closed ≡ f.closed
  pub queue : f.closed ≡ false → g.queue ≡ f.queue ++ chunks given
  pub still : f.closed ≡ true → g.panicked ≡ false → chunks given ≡ []
  pub calm : g.panicked ≡ false → f.panicked ≡ false

module _ {E : Type 0} where
  pub Sends-trans : {f g h : Tap E} → Sends f g → Sends g h → Sends f h
  Sends-trans {f} {g} {h} a b = record {
    given = a.given ++ b.given;
    orig = a.orig ∙ ap (λ p. a.given ++ p) b.orig ∙ sym (append_assoc a.given b.given h.orig);
    closed = b.closed ∙ a.closed;
    queue = λ open_end.
        b.queue (a.closed ∙ open_end)
        ∙ ap (λ q. q ++ chunks b.given) (a.queue open_end)
        ∙ append_assoc f.queue (chunks a.given) (chunks b.given)
        ∙ ap (λ q. f.queue ++ q) (sym (chunks-append a.given b.given));
    still = λ shut quiet.
        chunks-append a.given b.given
        ∙ ap (λ cs. cs ++ chunks b.given) (a.still shut (b.calm quiet))
        ∙ b.still (a.closed ∙ shut) quiet;
    calm = λ quiet. a.calm (b.calm quiet);
  }

  send_chunk-Sends :
      (c : Bytes) (rest : Payload E) (f : Tap E) (shut : Bool)
      → f.closed ≡ shut
      → f.orig ≡ chunk c ∷ rest
      → Sends f (
          if shut
          then record f { orig = rest; panicked = true }
          else record f { orig = rest; queue = f.queue ++ c ∷ [] })
  send_chunk-Sends c rest f true e h = record {
    given = chunk c ∷ [];
    orig = h;
    closed = refl;
    queue = λ o. cc;
    still = λ s q. cc;
    calm = λ q. cc;
  }
  send_chunk-Sends c rest f false e h = record {
    given = chunk c ∷ [];
    orig = h;
    closed = refl;
    queue = λ o. refl;
    still = λ s q. cc;
    calm = λ q. q;
  }

  poll_tap_from-Sends :
      (arrivals : Payload E) (f : Tap E) → f.orig ≡ arrivals → Sends f (poll_tap_from arrivals f).0
  unfolding poll_tap_from send_chunk
  poll_tap_from-Sends [] f h = record {
    given = [];
    orig = refl;
    closed = refl;
    queue = λ o. sym (append-nil f.queue);
    still = λ s q. refl;
    calm = λ q. q;
  }
  poll_tap_from-Sends (wait ∷ rest) f h = record {
    given = wait ∷ [];
    orig = h;
    closed = refl;
    queue = λ o. sym (append-nil f.queue);
    still = λ s q. refl;
    calm = λ q. q;
  }
  poll_tap_from-Sends (fail e ∷ rest) f h = record {
    given = fail e ∷ [];
    orig = h;
    closed = refl;
    queue = λ o. sym (append-nil f.queue);
    still = λ s q. refl;
    calm = λ q. q;
  }
  poll_tap_from-Sends (chunk c ∷ rest) f h = send_chunk-Sends c rest f f.closed refl h

  pub Taps-Sends : {f g : Tap E} → Taps f g → Sends f g
  unfolding poll_tap
  Taps-Sends {f} rests = record {
    given = [];
    orig = refl;
    closed = refl;
    queue = λ o. sym (append-nil f.queue);
    still = λ s q. refl;
    calm = λ q. q;
  }
  Taps-Sends {f} (polls r) = Sends-trans (poll_tap_from-Sends f.orig f refl) (Taps-Sends r)
  Taps-Sends {f} (drops r) =
      let later = Taps-Sends r in
      record {
        given = later.given;
        orig = later.orig;
        closed = later.closed;
        queue = later.queue;
        still = later.still;
        calm = later.calm;
      }
