-- ===== src/Middleware/Redirects.antt =====
-- actix-web-lab/src/redirect_to_www.rs, redirect_to_non_www.rs and redirect_to_https.rs: from the
-- connection info of a request to a redirect or the inner service. `Redirect` of actix-web gives
-- the location as it is handed over.
pub mod Laws
pub mod Secure
mod Tests
use actix_web_lab.Common.{
  ℕ, Bool, true, false, [], ◌∷◌, ◌++◌, Option, none, some, if◌then◌else◌, Result, ok, err,
}
use actix_web_lab.Text.{Text, text, text_eq, strip_prefix}
use actix_web_lab.Text.Decimal.{show}
use actix_web_lab.Text.Split.{split_once}
use actix_web_lab.Header.StrictTransportSecurity.{StrictTransportSecurity}

-- `connection_info` and the URI of a request, as far as they are read
pub record Request : Type 0 where
  pub scheme : Text
  pub host : Text
  pub path : Text
  pub query : Option Text

-- A redirect to a location, or what the inner service makes of the request.
pub data Answer : Type 0 where
  redirect : Text → Answer
  next : Request → Answer

abbrev pub www : Text
www = text "www."

-- `format!("{scheme}://{host}{path}")`
abbrev pub address : Text → Text → Text → Text
address scheme host path = scheme ++ (b':' ∷ (b'/' ∷ (b'/' ∷ (host ++ path))))

unfoldable pub to_www : Option Text → Request → Answer
to_www none req = redirect (address req.scheme (www ++ req.host) req.path)
to_www (some rest) req = next req

-- Where `starts_with` is false, `strip_prefix` gives nothing.
unfoldable pub redirect_to_www : Request → Answer
unfolding to_www
redirect_to_www req = to_www (strip_prefix www req.host) req

unfoldable pub to_non_www : Option Text → Request → Answer
to_non_www none req = next req
to_non_www (some host_no_www) req = redirect (address req.scheme host_no_www req.path)

unfoldable pub redirect_to_non_www : Request → Answer
unfolding to_non_www
redirect_to_non_www req = to_non_www (strip_prefix www req.host) req

pub record RedirectHttps : Type 0 where
  pub hsts : Option StrictTransportSecurity
  pub port : Option ℕ

unfoldable pub with_hsts : StrictTransportSecurity → RedirectHttps
with_hsts hsts = record { hsts = some hsts; port = none }

unfoldable pub to_port : RedirectHttps → ℕ → RedirectHttps
to_port r port = record r { port = some port }

-- `host.split_once(':').unwrap_or((host, "")).0`
unfoldable pub hostname : Text → Option (Text × Text) → Text
hostname host none = host
hostname host (some (name, port)) = name

unfoldable pub secure_address : Option ℕ → Text → Text → Text
secure_address none name path = address (text "https") name path
secure_address (some port) name path = address (text "https") (name ++ (b':' ∷ show port)) path

-- A response is what it was made from, with the headers that `apply_hsts` inserts.
pub record Response (R : Type 0) : Type 0 where
  pub made_from : R
  pub hsts : Option StrictTransportSecurity

unfoldable pub apply_hsts : {R : Type 0} → Response R → Option StrictTransportSecurity → Response R
apply_hsts res none = res
apply_hsts res (some hsts) = record res { hsts = some hsts }

pub data Served (E R : Type 0) : Type 0 where
  redirected : Response Text → Served E R
  served : Result E (Response R) → Served E R

abbrev pub with_header :
    {E R : Type 0} → Result E (Response R) → Option StrictTransportSecurity → Result E (Response R)
with_header (err e) hsts = err e
with_header (ok res) hsts = ok (apply_hsts res hsts)

-- `call`, over the inner service
unfoldable pub call :
    {E R : Type 0} → (Request → Result E (Response R)) → RedirectHttps → Request → Served E R
unfolding apply_hsts hostname secure_address
call inner r req =
    if text_eq req.scheme (text "https")
    then served (with_header (inner req) r.hsts)
    else redirected (
        apply_hsts
          (record {
            made_from =
                secure_address r.port (hostname req.host (split_once b':' req.host)) req.path;
            hsts = none;
          })
          r.hsts)
