-- ===== src/Middleware/Redirects/Laws.antt =====
-- Where redirect_to_www.rs and redirect_to_non_www.rs lead.
use actix_web_lab.Common.{
  [], ◌∷◌, ◌++◌, Option, none, some, ◌≡◌, ◌≢◌, ◌⊎◌, refl, ap, sym, subst, arith, All-append,
  Option-cases, Bool-cases, inl, inr, ◌==◌,
}
use actix_web_lab.Text.{Text, text, strip_prefix}
use actix_web_lab.Text.Split.{split_once, split_once-append, Lacks}
use actix_web_lab.Middleware.Redirects.{
  Request, redirect, next, www, address, redirect_to_www, redirect_to_non_www,
}

abbrev at_path : Text → Text → Option (Text × Text) → Option (Text × (Text × Text))
at_path scheme slashes none = none
at_path scheme slashes (some (host, path)) = some (scheme, (host, b'/' ∷ path))

abbrev at_host : Text → Option Text → Option (Text × (Text × Text))
at_host scheme none = none
at_host scheme (some rest) = at_path scheme rest (split_once b'/' rest)

abbrev at_scheme : Option (Text × Text) → Option (Text × (Text × Text))
at_scheme none = none
at_scheme (some (scheme, rest)) = at_host scheme (strip_prefix (text "//") rest)

-- The scheme, the host and the path that a client finds in a location.
pub follow : Text → Option (Text × (Text × Text))
follow location = at_scheme (split_once b':' location)

pub record IsWellFormed (req : Request) : Type 0 where
  pub no_colon : Lacks b':' req.scheme
  pub no_slash : Lacks b'/' req.host
  pub below : Text
  pub absolute : req.path ≡ b'/' ∷ below

follow-address :
    (scheme host path : Text)
    → Lacks b':' scheme
    → Lacks b'/' host
    → follow (address scheme host (b'/' ∷ path)) ≡ some (scheme, (host, b'/' ∷ path))
unfolding follow
follow-address scheme host path h k =
    rw
      (
        split_once-append b':' scheme (b'/' ∷ (b'/' ∷ (host ++ b'/' ∷ path))) h,
        split_once-append b'/' host path k,
      )
      refl

pub follow-address_path :
    (scheme host path below : Text)
    → Lacks b':' scheme
    → Lacks b'/' host
    → path ≡ b'/' ∷ below
    → follow (address scheme host path) ≡ some (scheme, (host, path))
follow-address_path scheme host path below h k e =
    subst (λ p. follow (address scheme host p) ≡ some (scheme, (host, p))) (sym e)
      (follow-address scheme host below h k)

strip_prefix-some : (p s : Text) {rest : Text} → strip_prefix p s ≡ some rest → s ≡ p ++ rest
strip_prefix-some [] s h = cc
strip_prefix-some (c ∷ p) [] h = cc
strip_prefix-some (c ∷ p) (d ∷ s) {rest} h = elim (Bool-cases (c == d)) [
  | inl same ↦
      let e : d ≡ c = ground arith in rw e (ap (◌∷◌ c) (strip_prefix-some p s (rw same at h)))
  | inr other ↦ absurd (ground arith)
]

strip_prefix-append : (p s : Text) → strip_prefix p (p ++ s) ≡ some s
strip_prefix-append [] s = refl
strip_prefix-append (c ∷ p) s = ground (arith, strip_prefix-append p s)

strip_prefix-none : (p s : Text) → strip_prefix p s ≡ none → (rest : Text) → s ≢ p ++ rest
strip_prefix-none p s missing rest whole =
    let found : strip_prefix p s ≡ some rest = rw whole (strip_prefix-append p rest) in cc

-- A request whose host does not begin with "www." is sent to the same scheme and path on the host
-- with "www." in front, and the request that follows the location is not redirected again; any
-- other request goes on as it is.
pub redirect_to_www-settles :
    (req : Request)
    → IsWellFormed req
    → ((rest : Text) × (req.host ≡ www ++ rest) × (redirect_to_www req ≡ next req))
      ⊎ ((location : Text) × ((rest : Text) → req.host ≢ www ++ rest)
          × (redirect_to_www req ≡ redirect location)
          × (follow location ≡ some (req.scheme, (www ++ req.host, req.path)))
          × (redirect_to_www (record req { host = www ++ req.host })
              ≡ next (record req { host = www ++ req.host })))
unfolding redirect_to_www
redirect_to_www-settles req w = elim (Option-cases (strip_prefix www req.host)) [
  | inl missing ↦ inr (
    address req.scheme (www ++ req.host) req.path,
    strip_prefix-none www req.host missing,
    rw missing refl,
    follow-address_path req.scheme (www ++ req.host) req.path w.below w.no_colon
        (All-append (λ c. c ≢ b'/') www req.host (omega arith) w.no_slash) w.absolute,
    refl,
  )
  | inr (rest, found) ↦ inl (rest, strip_prefix-some www req.host found, rw found refl)
]

drop_www : (s : Text) → Lacks b'/' (www ++ s) → Lacks b'/' s
drop_www s (_, (_, (_, (_, h)))) = h

-- A well-formed request whose host begins with "www." is sent to the same scheme and path on the host
-- without it; any other request goes on as it is.
pub redirect_to_non_www-strips :
    (req : Request)
    → IsWellFormed req
    → (((rest : Text) → req.host ≢ www ++ rest) × (redirect_to_non_www req ≡ next req))
      ⊎ ((host location : Text) × (req.host ≡ www ++ host)
          × (redirect_to_non_www req ≡ redirect location)
          × (follow location ≡ some (req.scheme, (host, req.path))))
unfolding redirect_to_non_www
redirect_to_non_www-strips req w = elim (Option-cases (strip_prefix www req.host)) [
  | inl missing ↦ inl (strip_prefix-none www req.host missing, rw missing refl)
  | inr (host, found) ↦
      let whole = strip_prefix-some www req.host found in
      inr (
        host,
        address req.scheme host req.path,
        whole,
        rw found refl,
        follow-address_path req.scheme host req.path w.below w.no_colon
            (drop_www host (subst (Lacks b'/') whole w.no_slash)) w.absolute,
      )
]
