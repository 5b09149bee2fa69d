-- ===== src/Fork/BodyLimit/Laws.antt =====
-- The limit of body_limit.rs against what the payload gave.
use actix_web_lab.Common.{
  none, some, inl, inr, ◌⊎◌, ℕ, zero, suc, ◌+◌, ◌≤◌, ◌<◌, true, false, ltb, length, length-append,
  [], ◌∷◌, ◌++◌, Result, ok, err, Poll, pending, ready, ◌≡◌, inl, inr, refl, sym, ap, ◌∙◌, subst,
  arith, Bool-cases, Option,
}
use actix_web_lab.Payload.{Payload, chunk, fail, wait, waits, panics, returns}
use actix_web_lab.Payload.Reading.{contents, IsSound}
use actix_web_lab.Fork.{Fork, fork_request_payload}
use actix_web_lab.Fork.Reads.{Extractor, copies, Gives, Gives-trans, Reads-Gives}
use actix_web_lab.Header.ContentLength.{ContentLength, is_gt}
use actix_web_lab.Fork.BodyLimit.{
  Driven, from_request, extractor, overflow, error, body, catch_up, Fut, Polled, poll_body, poll,
  again, drive,
}

IsSound-append : {E : Type 0} (a b : Payload E) → IsSound (a ++ b) → IsSound a
IsSound-append [] b h = tt
IsSound-append (wait ∷ a) b h = IsSound-append a b h
IsSound-append (chunk c ∷ a) b h = IsSound-append a b h
IsSound-append (fail e ∷ a) b h = absurd h

module _ {E : Type 0} (limit : ℕ) where
  catch_up-copies :
      (given : Payload E) (size : ℕ)
      → IsSound given
      → size ≤ limit
      → ((catch_up limit (copies given) size).over ≡ false → size + length (contents given) ≤ limit)
        × ((catch_up limit (copies given) size).over ≡ true
            → limit < size + length (contents given))
  unfolding catch_up
  catch_up-copies [] size h k = (λ e. ground arith, λ e. absurd (ground arith))
  catch_up-copies (wait ∷ given) size h k = catch_up-copies given size h k
  catch_up-copies (fail e ∷ given) size h k = absurd h
  catch_up-copies (chunk c ∷ given) size h k =
      let sizes = length-append c (contents given) in
      elim (Bool-cases (ltb limit (size + length c))) [
        | inl over ↦ rw over (λ e. absurd (ground arith), λ e. ground arith)
        | inr fits ↦
            let rest = catch_up-copies given (size + length c) h (ground arith) in
            rw fits (λ e. ground (arith, rest.0 e), λ e. ground (arith, rest.1 e))
      ]

-- What the stream has given, of which a fork has the rest, keeps to the limit, or does not.
pub record GivenWithin {E : Type 0} (limit : ℕ) (payload : Payload E) (f : Fork E) : Type 0 where
  pub given : Payload E
  pub is_part : payload ≡ given ++ f.orig
  pub within : length (contents given) ≤ limit

pub record GivenBeyond {E : Type 0} (limit : ℕ) (payload : Payload E) (f : Fork E) : Type 0 where
  pub given : Payload E
  pub is_part : payload ≡ given ++ f.orig
  pub beyond : limit < length (contents given)

module _ {E Error : Type 0} (limit : ℕ) (x : Extractor E Error) (payload : Payload E)
    (sound : IsSound payload) where
  abbrev ResultFits : Driven limit x → Type 0
  ResultFits (f, waits) = Unit
  ResultFits (f, panics) = Unit
  ResultFits (f, returns (ok t)) = GivenWithin limit payload f
  ResultFits (f, returns (err (extractor e))) = Unit
  ResultFits (f, returns (err overflow)) = GivenBeyond limit payload f

  abbrev StateFits : Fut limit x → Fork E → Type 0
  StateFits (error e) f = ⊥
  StateFits (body i size) f = (size ≡ 0) × Gives (fork_request_payload payload) f

  abbrev Keeps : Polled limit x → Type 0
  Keeps (fut, f, waits) = StateFits fut f
  Keeps (fut, f, panics) = Unit
  Keeps (fut, f, returns r) = ResultFits (f, returns r)

  caught-Keeps :
      (i : x.Future) (f : Fork E) (t : x.Value)
      → Gives (fork_request_payload payload) f
      → Keeps (poll_body limit x i 0 f (ready (ok t)))
  unfolding poll_body fork_request_payload
  caught-Keeps i f t g =
      let part = IsSound-append g.given f.orig (subst IsSound g.orig sound) in
      let counted = catch_up-copies limit g.given 0 part (omega arith) in
      let same = ap (λ q. (catch_up limit q 0).over) g.queue in
      elim (Bool-cases (catch_up limit f.queue 0).over) [
        | inl over ↦ rw over (record {
          given = g.given;
          is_part = g.orig;
          beyond = ground (arith, counted.1 (sym same ∙ over));
        })
        | inr fits ↦ rw fits (record {
          given = g.given;
          is_part = g.orig;
          within = ground (arith, counted.0 (sym same ∙ fits));
        })
      ]

  poll_body-Keeps :
      (i : x.Future) (f : Fork E) (res : Poll (Result Error x.Value))
      → Gives (fork_request_payload payload) f
      → Keeps (poll_body limit x i 0 f res)
  poll_body-Keeps i f pending g = unfold poll_body in (refl, g)
  poll_body-Keeps i f (ready (err e)) g = unfold poll_body in tt
  poll_body-Keeps i f (ready (ok t)) g = caught-Keeps i f t g

  poll-Keeps : (fut : Fut limit x) (f : Fork E) → StateFits fut f → Keeps (poll limit x fut f)
  unfolding poll
  poll-Keeps (error e) f h = absurd h
  poll-Keeps (body i size) f (none_yet, g) = rw none_yet (
      poll_body-Keeps (x.poll_future i f).0 (x.poll_future i f).1.0 (x.poll_future i f).1.1
        (Gives-trans g (Reads-Gives (x.only_reads i f))))

  again-Keeps :
      (polled : Polled limit x) (k : Fut limit x → Fork E → Driven limit x)
      → Keeps polled
      → ((fut : Fut limit x) (f : Fork E) → StateFits fut f → ResultFits (k fut f))
      → ResultFits (again limit x polled k)
  again-Keeps (fut, f, waits) k h later = later fut f h
  again-Keeps (fut, f, panics) k h later = tt
  again-Keeps (fut, f, returns r) k h later = h

  drive_from :
      (n : ℕ) (fut : Fut limit x) (f : Fork E)
      → StateFits fut f
      → ResultFits (drive limit x n fut f)
  unfolding drive
  drive_from zero fut f h = tt
  drive_from (suc n) fut f h =
      again-Keeps (poll limit x fut f) (drive limit x n) (poll-Keeps fut f h) (drive_from n)

  abbrev Announced : Option ContentLength → Type 0
  Announced none = ⊥
  Announced (some len) = is_gt len limit ≡ true

  -- What is known of a result, by what was announced.
  abbrev pub Outcome : Option ContentLength → Driven limit x → Type 0
  Outcome announced (f, waits) = Unit
  Outcome announced (f, panics) = Unit
  Outcome announced (f, returns (ok t)) = GivenWithin limit payload f
  Outcome announced (f, returns (err (extractor e))) = Unit
  Outcome announced (f, returns (err overflow)) = Announced announced ⊎ GivenBeyond limit payload f

  ResultFits-Outcome :
      (announced : Option ContentLength) (r : Driven limit x) → ResultFits r → Outcome announced r
  ResultFits-Outcome announced (f, waits) h = tt
  ResultFits-Outcome announced (f, panics) h = tt
  ResultFits-Outcome announced (f, returns (ok t)) h = h
  ResultFits-Outcome announced (f, returns (err (extractor e))) h = tt
  ResultFits-Outcome announced (f, returns (err overflow)) h = inr h

  drive_body-Outcome :
      (n : ℕ) (announced : Option ContentLength) (i : x.Future)
      → Outcome announced (drive limit x n (body i 0) (fork_request_payload payload))
  unfolding fork_request_payload
  drive_body-Outcome n announced i = ResultFits-Outcome announced _ (
      drive_from n (body i 0) (fork_request_payload payload)
        (refl, record { given = []; orig = refl; queue = refl }))

  drive_error :
      (n : ℕ) (len : ContentLength) (f : Fork E)
      → is_gt len limit ≡ true
      → Outcome (some len) (drive limit x n (error (some overflow)) f)
  unfolding drive poll
  drive_error zero len f h = tt
  drive_error (suc n) len f h = inl h

  -- Whatever the inner extractor does with its proxy, over any number of polls, for a payload that
  -- does not fail: its value is given only if the bytes that the stream has given by then are
  -- within the limit, and the overflow error is given only if they are not, or if the length that
  -- was announced was not.
  pub drive-Outcome :
      (n : ℕ) (announced : Option ContentLength) (i : x.Future)
      → Outcome announced (
          drive limit x n
            (from_request limit x announced payload i).0
            (from_request limit x announced payload i).1)
  unfolding from_request
  drive-Outcome n none i = drive_body-Outcome n none i
  drive-Outcome n (some len) i = elim (Bool-cases (is_gt len limit)) [
    | inl over ↦ rw over (drive_error n len (fork_request_payload payload) over)
    | inr fits ↦ rw fits (drive_body-Outcome n (some len) i)
  ]

module _ {E Error : Type 0} (limit : ℕ) (x : Extractor E Error) where
  -- Once the inner extractor is done in a poll, so is the future in the same poll: with the inner
  -- extractor's error, with its value, or with the overflow error.
  pub poll_body-returns :
      (i done : x.Future) (size : ℕ) (f g : Fork E) (res : Result Error x.Value)
      → x.poll_future i f ≡ (done, (g, ready res))
      → ((e : Error) × (res ≡ err e)
          × ((poll limit x (body i size) f).2 ≡ returns (err (extractor e))))
        ⊎ (((t : x.Value) × (res ≡ ok t) × ((poll limit x (body i size) f).2 ≡ returns (ok t)))
            ⊎ ((poll limit x (body i size) f).2 ≡ returns (err overflow)))
  unfolding poll poll_body
  poll_body-returns i done size f g (err e) h = inl (e, refl, rw h refl)
  poll_body-returns i done size f g (ok t) h =
      elim (Bool-cases (catch_up limit g.queue size).over) [
        | inl over ↦ inr (inr (rw (h, over) refl))
        | inr fits ↦ inr (inl (t, refl, rw (h, fits) refl))
      ]
