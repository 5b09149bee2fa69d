-- ===== src/Middleware/NormalizePath/Serving.antt =====
-- The future of normalize_path.rs: it answers at once with a redirect, or is the inner service's. The inner
-- service's futures are a machine, and `service` is its call.
use actix_web_lab.Future.{Machine, Settles, at_once, later}
use actix_web_lab.Payload.{Step, waits, returns, panics}
use actix_web_lab.Middleware.NormalizePath.{
  MergeSlash, NormalizePath, Uri, Request, Served, service, redirect, call,
}
use actix_web_lab.Middleware.NormalizePath.Calls.{Redirected, Passed, call-settles, call-serves}
use actix_web_lab.Common.{ℕ, [], Option, none, some, Result, ok, err, ◌≡◌, ◌≢◌, refl, ap}

-- What a response's body is, that of the inner service or none
pub data EitherBody (A Origin : Type 0) : Type 0 where
  left : A → EitherBody A Origin
  right : (status : ℕ) (location : Uri Origin) → EitherBody A Origin

-- `Inner`, whose redirect is taken by the poll that gives it.
pub data NormalizePathFuture (F Origin : Type 0) : Type 0 where
  redirecting : Option (ℕ × Uri Origin) → NormalizePathFuture F Origin
  serving : F → NormalizePathFuture F Origin

module _ (merge_slash : MergeSlash) {Origin A E : Type 0} (fut : Machine (Result E A))
    (inner_call : Request Origin → fut.State) where
  abbrev pub Fut : Type 0
  Fut = NormalizePathFuture fut.State Origin

  abbrev pub left_body : Step (Result E A) → Step (Result E (EitherBody A Origin))
  left_body waits = waits
  left_body panics = panics
  left_body (returns (ok res)) = returns (ok (left res))
  left_body (returns (err e)) = returns (err e)

  -- What the inner service's answer is meant to become: its response with its body as the left one.
  pub data Left : Step (Result E A) → Step (Result E (EitherBody A Origin)) → Type 0 where
    response : {a : A} → Left (returns (ok a)) (returns (ok (left a)))
    failure : {e : E} → Left (returns (err e)) (returns (err e))
    panicked : Left panics panics

  unfoldable pub poll : Fut → Fut × Step (Result E (EitherBody A Origin))
  poll (redirecting none) = (redirecting none, panics)
  poll (redirecting (some (status, location))) =
      (redirecting none, returns (ok (right status location)))
  poll (serving f) = (serving (fut.poll f).0, left_body (fut.poll f).1)

  abbrev pub normalizing : Machine (Result E (EitherBody A Origin))
  normalizing = record { State = Fut; poll = poll }

  abbrev pub future_of : Served Origin → Fut
  future_of (service req) = serving (inner_call req)
  future_of (redirect status location) = redirecting (some (status, location))

  -- `call` with the future that it makes
  unfoldable pub start : NormalizePath → Request Origin → Fut
  start n req = future_of (call merge_slash n req)

  left_body≢waits : (r : Step (Result E A)) → r ≢ waits → left_body r ≢ waits
  left_body≢waits waits h e = h refl
  left_body≢waits panics h e = cc
  left_body≢waits (returns (ok a)) h e = cc
  left_body≢waits (returns (err x)) h e = cc

  left_body-Left : (r : Step (Result E A)) → r ≢ waits → Left r (left_body r)
  left_body-Left waits h = absurd (h refl)
  left_body-Left panics h = panicked
  left_body-Left (returns (ok a)) h = response
  left_body-Left (returns (err x)) h = failure

  -- The inner future's waits are those of the whole.
  pub serving-Settles :
      {f : fut.State} {k : ℕ} {r : Step (Result E A)}
      → Settles fut f k r
      → (s : Step (Result E (EitherBody A Origin))) × Settles normalizing (serving f) k s × Left r s
  unfolding poll
  serving-Settles (at_once {r = r} h ne) =
      (left_body r, at_once (ap left_body h) (left_body≢waits r ne), left_body-Left r ne)
  serving-Settles (later h rest) =
      let (s, settles, is_left) = serving-Settles rest in
      (s, later (ap left_body h) settles, is_left)

  -- Without redirects, a request that has a path comes to what the inner service makes of it with its path
  -- normalized, after as many waits.
  pub start-serves :
      (n : NormalizePath) (req : Request Origin)
      → req.uri.path ≢ []
      → n.use_redirects ≡ none
      → (passed : Request Origin) × Passed merge_slash n req req.uri.path passed
        × ((k : ℕ) (r : Step (Result E A))
            → Settles fut (inner_call passed) k r
            → (s : Step (Result E (EitherBody A Origin))) × Settles normalizing (start n req) k s
              × Left r s)
  unfolding start
  start-serves n req full h =
      let (passed, called, is_passed) = call-serves merge_slash n req full h in
      (passed, is_passed, λ k r settles. rw called (serving-Settles settles))

  -- A redirect is there at the first poll; and the request of a client that follows it comes to what the
  -- inner service makes of it as it is.
  pub start-redirects :
      (n : NormalizePath) (req : Request Origin) (match_uri : Uri Origin) {code : ℕ}
      {uri : Uri Origin}
      → call merge_slash n req ≡ redirect code uri
      → Redirected merge_slash n req req.uri.path code uri
        × Settles normalizing (start n req) 0 (returns (ok (right code uri)))
        × ((k : ℕ) (r : Step (Result E A))
            → Settles fut (inner_call (record { uri = uri; match_uri = match_uri })) k r
            → (s : Step (Result E (EitherBody A Origin))) × Settles normalizing
                (start n (record { uri = uri; match_uri = match_uri }))
                k
                s
              × Left r s)
  unfolding start poll
  start-redirects n req match_uri h =
      let (redirected, again) = call-settles merge_slash n req h in
      (
        redirected,
        rw h (at_once refl (λ e. cc)),
        λ k r settles. rw (again match_uri) (serving-Settles settles),
      )
