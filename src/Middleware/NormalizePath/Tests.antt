-- ===== src/Middleware/NormalizePath/Tests.antt =====
-- The theorems on normalize_path.rs at concrete requests.
use actix_web_lab.Common.{none, some, ◌≡◌, refl, ℕ, Result, ok, Bool, true, false, if◌then◌else◌}
use actix_web_lab.Text.{Text, text}
use actix_web_lab.Middleware.NormalizePath.{
  MergeSlash, merged, always, trim, NormalizePath, Uri, Request, redirect, normalized, call, answer,
  with_trailing, or_root,
}
use actix_web_lab.Middleware.NormalizePath.Laws.{IsNormal, normalized-canonical}
use actix_web_lab.Middleware.NormalizePath.Calls.{Redirected, Passed}
use actix_web_lab.Middleware.NormalizePath.Serving.{
  normalizing, start, right, start-redirects, start-serves, EitherBody, Left,
}
use actix_web_lab.Future.{Machine, Settles, at_once, later}
use actix_web_lab.Payload.{Step, waits, returns}

abbrev merging : MergeSlash
merging = record { replace_all = merged; merges = λ path. refl }

normalized-canonical_example :
    IsNormal always (normalized merging always (text "/v1//s"))
    × (IsNormal always (text "/v1//s") → normalized merging always (text "/v1//s") ≡ text "/v1//s")
    × (normalized merging always (normalized merging always (text "/v1//s"))
        ≡ normalized merging always (text "/v1//s"))
normalized-canonical_example = normalized-canonical merging always (text "/v1//s")

abbrev with_307 : NormalizePath
with_307 = record { trailing_slash_behavior = trim; use_redirects = some 307 }

abbrev uri_of : Text → Uri Unit
uri_of path = record { origin = tt; path = path; query = some (text "q=1") }

abbrev request_of : Text → Request Unit
request_of path = record { uri = uri_of path; match_uri = uri_of path }

redirected :
    call merging with_307 (request_of (text "/a//b/")) ≡ redirect 307 (uri_of (text "/a/b"))
unfolding call normalized merged with_trailing or_root answer
redirected = refl

-- An inner service that waits once, and then gives the path that it was called with
abbrev echo : Machine (Result ℕ Text)
echo = record {
  State = Bool × Text;
  poll = λ s. ((true, s.1), if s.0 then returns (ok s.1) else waits);
}

abbrev echo_call : Request Unit → Bool × Text
echo_call req = (false, req.uri.path)

start-redirects_example :
    Redirected merging with_307
      (request_of (text "/a//b/"))
      (text "/a//b/")
      307
      (uri_of (text "/a/b"))
    × Settles
        (normalizing merging echo echo_call)
        (start merging echo echo_call with_307 (request_of (text "/a//b/")))
        0
        (returns (ok (right 307 (uri_of (text "/a/b")))))
    × ((k : ℕ) (r : Step (Result ℕ Text))
        → Settles echo (echo_call (request_of (text "/a/b"))) k r
        → (s : Step (Result ℕ (EitherBody Text Unit))) × Settles
            (normalizing merging echo echo_call)
            (start merging echo echo_call with_307 (request_of (text "/a/b")))
            k
            s
          × Left merging echo echo_call r s)
start-redirects_example =
    start-redirects merging echo echo_call with_307 (request_of (text "/a//b/"))
      (uri_of (text "/a/b")) redirected

abbrev passing : NormalizePath
passing = record { trailing_slash_behavior = always; use_redirects = none }

start-serves_example :
    (passed : Request Unit) × Passed merging passing
      (request_of (text "/v1//s"))
      (text "/v1//s")
      passed
    × ((k : ℕ) (r : Step (Result ℕ Text))
        → Settles echo (echo_call passed) k r
        → (s : Step (Result ℕ (EitherBody Text Unit))) × Settles
            (normalizing merging echo echo_call)
            (start merging echo echo_call passing (request_of (text "/v1//s")))
            k
            s
          × Left merging echo echo_call r s)
start-serves_example =
    start-serves merging echo echo_call passing (request_of (text "/v1//s")) (λ e. cc) refl

-- The echo does give an answer.
echo-Settles : Settles echo (echo_call (request_of (text "/a/b"))) 1 (returns (ok (text "/a/b")))
echo-Settles = later refl (at_once refl (λ e. cc))
