-- ===== src/Middleware/Redirects/Secure.antt =====
-- What redirect_to_https.rs does with requests that did and did not come over HTTPS.
use actix_web_lab.Common.{
  ℕ, true, [], ◌∷◌, ◌++◌, Option, none, some, ◌≡◌, ◌≢◌, refl, ap, ◌∙◌, subst, arith, All-imp,
  All-append, Bool-cases, inl, inr, Result, ◌==◌,
}
use actix_web_lab.Text.{Text, text}
use actix_web_lab.Text.Equal.{text_eq_ne}
use actix_web_lab.Text.Decimal.{show, show_digits, is_digit}
use actix_web_lab.Text.Split.{split_once, Lacks}
use actix_web_lab.Header.StrictTransportSecurity.{StrictTransportSecurity}
use actix_web_lab.Middleware.Redirects.{
  Request, RedirectHttps, hostname, secure_address, Response, apply_hsts, redirected, served,
  with_header, call,
}
use actix_web_lab.Middleware.Redirects.Laws.{follow, follow-address_path, IsWellFormed}

-- The name in front of the first colon of a host, or the host.
pub data IsNameOf (host name : Text) : Type 0 where
  alone : host ≡ name → IsNameOf host name
  with_port : (port : Text) → host ≡ name ++ b':' ∷ port → IsNameOf host name

-- The host in a location: the name, with the port that was configured.
abbrev pub with_configured : Option ℕ → Text → Text
with_configured none name = name
with_configured (some port) name = name ++ b':' ∷ show port

-- What `split_once` finds.
pub data FirstCut (sep : ℕ) (s : Text) : Type 0 where
  nowhere : split_once sep s ≡ none → Lacks sep s → FirstCut sep s
  there :
      (a b : Text)
      → split_once sep s ≡ some (a, b)
      → s ≡ a ++ sep ∷ b
      → Lacks sep a
      → FirstCut sep s

split_once-FirstCut : (sep : ℕ) (s : Text) → FirstCut sep s
unfolding split_once
split_once-FirstCut sep [] = nowhere refl tt
split_once-FirstCut sep (c ∷ s) = elim (Bool-cases (c == sep)) [
  | inl same ↦ let e : c ≡ sep = ground arith in there [] s (rw same refl) (ap (λ d. d ∷ s) e) tt
  | inr other ↦
      let ne : c ≢ sep = ground arith in
      elim (split_once-FirstCut sep s) [
        | nowhere missing lacks ↦ nowhere (rw (other, missing) refl) (ne, lacks)
        | there a b found whole lacks ↦
            there (c ∷ a) b (rw (other, found) refl) (ap (◌∷◌ c) whole) (ne, lacks)
      ]
]

digit_no_slash : (c : ℕ) → is_digit c ≡ true → c ≢ b'/'
digit_no_slash c h = ground arith

Lacks-with_configured :
    (port : Option ℕ) (name : Text) → Lacks b'/' name → Lacks b'/' (with_configured port name)
Lacks-with_configured none name h = h
Lacks-with_configured (some port) name h =
    All-append (λ c. c ≢ b'/') name (b':' ∷ show port) h
      (
        omega arith,
        All-imp (λ c. is_digit c ≡ true) (λ c. c ≢ b'/') digit_no_slash (show port)
            (show_digits port),
      )

follow-secure_address :
    (port : Option ℕ) (name path below : Text)
    → Lacks b'/' name
    → path ≡ b'/' ∷ below
    → follow (secure_address port name path)
      ≡ some (text "https", (with_configured port name, path))
unfolding secure_address
follow-secure_address none name path below h e =
    follow-address_path (text "https") name path below (omega arith) h e
follow-secure_address (some port) name path below h e =
    follow-address_path (text "https") (with_configured (some port) name) path below (omega arith)
      (Lacks-with_configured (some port) name h) e

front-Lacks : (a : Text) (sep : ℕ) (b : Text) → Lacks b'/' (a ++ sep ∷ b) → Lacks b'/' a
front-Lacks [] sep b h = tt
front-Lacks (c ∷ a) sep b (p, h) = (p, front-Lacks a sep b h)

-- The host name that the middleware takes.
hostname-IsNameOf :
    (host : Text)
    → Lacks b'/' host
    → IsNameOf host (hostname host (split_once b':' host))
      × Lacks b'/' (hostname host (split_once b':' host))
      × Lacks b':' (hostname host (split_once b':' host))
unfolding hostname
hostname-IsNameOf host h = elim (split_once-FirstCut b':' host) [
  | nowhere missing lacks ↦ rw missing (alone refl, h, lacks)
  | there a b found whole lacks ↦
      rw found (with_port b whole, front-Lacks a b':' b (subst (Lacks b'/') whole h), lacks)
]

module _ {E R : Type 0} (inner : Request → Result E (Response R)) (r : RedirectHttps) where
  apply_hsts-header :
      (location : Text) (hsts : Option StrictTransportSecurity)
      → (apply_hsts (record { made_from = location; hsts = none }) hsts).hsts ≡ hsts
        × ((apply_hsts (record { made_from = location; hsts = none }) hsts).made_from ≡ location)
  unfolding apply_hsts
  apply_hsts-header location none = (refl, refl)
  apply_hsts-header location (some hsts) = (refl, refl)

  -- A request that did not come over HTTPS is sent there: to the name in front of the first colon
  -- of its host, with the port that was configured, if one was, and to the same path, without its
  -- query; the response has the security header that was configured. The request that follows the
  -- location is not redirected.
  pub call-secures :
      (req : Request)
      → IsWellFormed req
      → req.scheme ≢ text "https"
      → (res : Response Text) × (name : Text) × (call inner r req ≡ redirected res)
        × (res.hsts ≡ r.hsts)
        × IsNameOf req.host name
        × Lacks b':' name
        × (follow res.made_from ≡ some (text "https", (with_configured r.port name, req.path)))
        × ((secured : Request)
            → secured.scheme ≡ text "https"
            → call inner r secured ≡ served (with_header (inner secured) r.hsts))
  unfolding call
  call-secures req w plain =
      let name = hostname req.host (split_once b':' req.host) in
      let location = secure_address r.port name req.path in
      let (same_hsts, same_location) = apply_hsts-header location r.hsts in
      let (is_name, no_slash, no_colon) = hostname-IsNameOf req.host w.no_slash in
      (
        apply_hsts (record { made_from = location; hsts = none }) r.hsts,
        name,
        rw (text_eq_ne req.scheme (text "https") plain) refl,
        same_hsts,
        is_name,
        no_colon,
        ap follow same_location
            ∙ follow-secure_address r.port name req.path w.below no_slash w.absolute,
        λ secured e. rw e refl,
      )
