-- ===== src/Fork/BodyHash/Laws.antt =====
-- What body_hash.rs has hashed, over any number of polls.
use actix_web_lab.Common.{
  pending, ready, none, some, zero, suc, ◌||◌, subst, false, [], ◌++◌, Result, ok, err, ◌≡◌, refl,
  sym, ap, ◌∙◌, append_assoc, Option, Bool-cases, Bool, ℕ, ready, some, inl, Poll, suc, inr, true,
}
use actix_web_lab.Payload.{Payload, Step, waits, panics, returns}
use actix_web_lab.Payload.Reading.{contents}
use actix_web_lab.Fork.{Fork, fork_request_payload}
use actix_web_lab.Fork.Reads.{Extractor, copies, copies-append, Gives, Reads-Gives}
use actix_web_lab.Fork.BodyHash.{
  Driven, Digest, BodyHash, payload_none, inner, inner_done, drain, Fut, poll_done, poll_inner_done,
  poll, again, drive, from_request, finish,
}
use actix_web_lab.Fork.BodyHash.Absorb.{
  absorb, absorb-append, absorb-drain, drain_whole, absorb-copies,
}

module _ (digest : Digest) {E Error : Type 0} (x : Extractor E Error) (payload : Payload E) where
  -- The stream has given a part of the payload, of which the hasher was fed with what no longer
  -- waits in the channel.
  record Follows (hasher : digest.Hasher) (f : Fork E) : Type 0 where
    given : Payload E
    orig : payload ≡ given ++ f.orig
    fed : absorb digest hasher f.queue ≡ absorb digest digest.new (copies given)

  -- The hash of what the payload holds but for that which the stream has still to give.
  pub record IsHash (hash : digest.Output) (f : Fork E) : Type 0 where
    pub given : Payload E
    pub is_part : payload ≡ given ++ f.orig
    pub is_hash : hash ≡ digest.finalize (digest.update digest.new (contents given))

  Follows-Gives :
      {hasher : digest.Hasher} {f g : Fork E} → Follows hasher f → Gives f g → Follows hasher g
  Follows-Gives {hasher} {f} {g} a b = record {
    given = a.given ++ b.given;
    orig = a.orig ∙ ap (λ p. a.given ++ p) b.orig ∙ sym (append_assoc a.given b.given g.orig);
    fed =
        ap (absorb digest hasher) b.queue
        ∙ absorb-append digest hasher f.queue (copies b.given)
        ∙ ap (λ h. absorb digest h (copies b.given)) a.fed
        ∙ sym (absorb-append digest digest.new (copies a.given) (copies b.given))
        ∙ ap (absorb digest digest.new) (sym (copies-append a.given b.given));
  }

  abbrev StateFollows : Fut digest x → Fork E → Type 0
  StateFollows (payload_none i hash) f = ⊥
  StateFollows (inner i hasher) f = Follows hasher f
  StateFollows (inner_done t hasher) f = Follows hasher f

  -- What must hold of the result of a poll.
  abbrev ResultIsHash : Driven digest x → Type 0
  ResultIsHash (f, waits) = Unit
  ResultIsHash (f, panics) = Unit
  ResultIsHash (f, returns (err e)) = Unit
  ResultIsHash (f, returns (ok b)) = IsHash b.hash f

  abbrev Keeps :
      Fut digest x × Fork E × Step (Result Error (BodyHash x.Value digest.Output)) → Type 0
  Keeps (fut, f, waits) = StateFollows fut f
  Keeps (fut, f, panics) = Unit
  Keeps (fut, f, returns r) = ResultIsHash (f, returns r)

  Follows-drain :
      (hasher : digest.Hasher) (f : Fork E) (dropped : Bool)
      → Follows hasher f
      → Follows
          (drain digest f.queue hasher).hasher
          (record f { queue = (drain digest f.queue hasher).queue; dropped = dropped })
  Follows-drain hasher f dropped h = record {
    given = h.given;
    orig = h.orig;
    fed = absorb-drain digest f.queue hasher ∙ h.fed;
  }

  finish-Keeps :
      (t : Option x.Value) (hasher : digest.Hasher) (f : Fork E) (dropped : Bool)
      → Follows hasher f
      → (drain digest f.queue hasher).stopped ≡ false
      → Keeps (
          finish digest x t
            (drain digest f.queue hasher).hasher
            (record f { queue = (drain digest f.queue hasher).queue; dropped = dropped }))
  finish-Keeps none hasher f dropped h whole = tt
  finish-Keeps (some t) hasher f dropped h whole = record {
    given = h.given;
    is_part = h.orig;
    is_hash =
        ap digest.finalize (
          drain_whole digest f.queue hasher whole
          ∙ h.fed
          ∙ absorb-copies digest digest.new h.given);
  }

  poll_done-Keeps :
      (t : Option x.Value) (hasher : digest.Hasher) (f : Fork E)
      → Follows hasher f
      → Keeps (poll_done digest x t hasher f)
  unfolding poll_done
  poll_done-Keeps t hasher f h = elim (Bool-cases (drain digest f.queue hasher).stopped) [
    | inl stops ↦ rw stops (Follows-drain hasher f f.dropped h)
    | inr whole ↦ elim (Bool-cases f.dropped) [
      | inl gone ↦ rw (whole, gone) (finish-Keeps t hasher f true h whole)
      | inr open_end ↦ rw (whole, open_end) (Follows-drain hasher f false h)
    ]
  ]

  poll_inner_done-Keeps :
      (owns : Bool) (i : x.Future) (f : Fork E) (res : Poll (Result Error x.Value))
      (hasher : digest.Hasher)
      → Follows hasher f
      → Keeps (poll_inner_done digest x owns i f res hasher)
  unfolding poll_inner_done
  poll_inner_done-Keeps owns i f (ready (err e)) hasher h = tt
  poll_inner_done-Keeps owns i f (ready (ok t)) hasher h =
      poll_done-Keeps (some t) hasher (record f { dropped = f.dropped || owns })
        (record { given = h.given; orig = h.orig; fed = h.fed })
  poll_inner_done-Keeps owns i f pending hasher h =
      elim (Bool-cases (drain digest f.queue hasher).stopped) [
        | inl stops ↦ rw stops (Follows-drain hasher f f.dropped h)
        | inr whole ↦ elim (Bool-cases f.dropped) [
          | inl gone ↦ rw (whole, gone) tt
          | inr open_end ↦ rw (whole, open_end) (Follows-drain hasher f false h)
        ]
      ]

  poll-Keeps : (fut : Fut digest x) (f : Fork E) → StateFollows fut f → Keeps (poll digest x fut f)
  unfolding poll
  poll-Keeps (payload_none i hash) f h = absurd h
  poll-Keeps (inner i hasher) f h =
      poll_inner_done-Keeps (x.holds_proxy (x.poll_future i f).0) (x.poll_future i f).0
        (x.poll_future i f).1.0 (x.poll_future i f).1.1 hasher
        (Follows-Gives h (Reads-Gives (x.only_reads i f)))
  poll-Keeps (inner_done t hasher) f h = poll_done-Keeps t hasher f h

  again-Keeps :
      (polled : Fut digest x × Fork E × Step (Result Error (BodyHash x.Value digest.Output)))
      (k : Fut digest x → Fork E → Driven digest x)
      → Keeps polled
      → ((fut : Fut digest x) (f : Fork E) → StateFollows fut f → ResultIsHash (k fut f))
      → ResultIsHash (again digest x polled k)
  again-Keeps (fut, f, waits) k h later = later fut f h
  again-Keeps (fut, f, panics) k h later = tt
  again-Keeps (fut, f, returns r) k h later = h

  drive_from :
      (n : ℕ) (fut : Fut digest x) (f : Fork E)
      → StateFollows fut f
      → ResultIsHash (drive digest x n fut f)
  unfolding drive
  drive_from zero fut f h = tt
  drive_from (suc n) fut f h =
      again-Keeps (poll digest x fut f) (drive digest x n) (poll-Keeps fut f h) (drive_from n)

  result_of :
      (r : Driven digest x) {f : Fork E} {b : BodyHash x.Value digest.Output}
      → ResultIsHash r
      → r ≡ (f, returns (ok b))
      → IsHash b.hash f
  result_of r h e = subst ResultIsHash e h

  -- Whatever the inner extractor does with its proxy, and over any number of polls: a hash that is
  -- given for a request with a payload is that of the bytes of a first part of the payload, all of
  -- that which the stream has given by then, none of it left out, twice or in another order.
  pub drive-IsHash :
      (n : ℕ) (i : x.Future) {f : Fork E} {b : BodyHash x.Value digest.Output}
      → drive digest x n
          (from_request digest x (some payload) i).0
          (from_request digest x (some payload) i).1
        ≡ (f, returns (ok b))
      → IsHash b.hash f
  unfolding from_request fork_request_payload
  drive-IsHash n i e =
      result_of _
        (drive_from n (inner i digest.new) (fork_request_payload payload)
          (record { given = []; orig = refl; fed = refl }))
        e
