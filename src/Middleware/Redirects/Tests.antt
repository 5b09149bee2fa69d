-- ===== src/Middleware/Redirects/Tests.antt =====
-- The theorems on the redirects at concrete requests.
use actix_web_lab.Common.{none, some, ◌≡◌, ◌⊎◌, refl, arith, Result, ok, ◌++◌, ◌≢◌}
use actix_web_lab.Text.{Text, text}
use actix_web_lab.Text.Split.{split_once, Lacks}
use actix_web_lab.Header.StrictTransportSecurity.{default}
use actix_web_lab.Middleware.Redirects.{
  Request, redirect, next, redirect_to_www, RedirectHttps, Response, redirected, served,
  with_header, call, www, redirect_to_non_www,
}
use actix_web_lab.Middleware.Redirects.Laws.{
  follow, IsWellFormed, redirect_to_www-settles, redirect_to_non_www-strips,
}
use actix_web_lab.Middleware.Redirects.Secure.{IsNameOf, with_configured, call-secures}

abbrev bare : Request
bare = record {
  scheme = text "http";
  host = text "example.com:8080";
  path = text "/a";
  query = some (text "q=1");
}

bare-IsWellFormed : IsWellFormed bare
bare-IsWellFormed = record {
  no_colon = omega arith;
  no_slash = omega arith;
  below = text "a";
  absolute = refl;
}

redirect_to_www-settles_example :
    ((rest : Text) × (bare.host ≡ www ++ rest) × (redirect_to_www bare ≡ next bare))
    ⊎ ((location : Text) × ((rest : Text) → bare.host ≢ www ++ rest)
        × (redirect_to_www bare ≡ redirect location)
        × (follow location ≡ some (text "http", (text "www.example.com:8080", text "/a")))
        × (redirect_to_www (record bare { host = text "www.example.com:8080" })
            ≡ next (record bare { host = text "www.example.com:8080" })))
redirect_to_www-settles_example = redirect_to_www-settles bare bare-IsWellFormed

abbrev with_www : Request
with_www = record bare { host = text "www.example.com" }

with_www-IsWellFormed : IsWellFormed with_www
with_www-IsWellFormed = record {
  no_colon = omega arith;
  no_slash = omega arith;
  below = text "a";
  absolute = refl;
}

redirect_to_non_www-strips_example :
    (((rest : Text) → with_www.host ≢ www ++ rest) × (redirect_to_non_www with_www ≡ next with_www))
    ⊎ ((host location : Text) × (with_www.host ≡ www ++ host)
        × (redirect_to_non_www with_www ≡ redirect location)
        × (follow location ≡ some (text "http", (host, text "/a"))))
redirect_to_non_www-strips_example = redirect_to_non_www-strips with_www with_www-IsWellFormed

abbrev to_8443 : RedirectHttps
to_8443 = record { hsts = some default; port = some 8443 }

abbrev echo : Request → Result ⊥ (Response Request)
echo req = ok (record { made_from = req; hsts = none })

call-secures_example :
    (res : Response Text) × (name : Text) × (call echo to_8443 bare ≡ redirected res)
    × (res.hsts ≡ some default)
    × IsNameOf (text "example.com:8080") name
    × Lacks b':' name
    × (follow res.made_from ≡ some (text "https", (with_configured (some 8443) name, text "/a")))
    × ((secured : Request)
        → secured.scheme ≡ text "https"
        → call echo to_8443 secured ≡ served (with_header (echo secured) (some default)))
call-secures_example = call-secures echo to_8443 bare bare-IsWellFormed (λ e. cc)

-- The host of an address in brackets is cut at its first colon.
bracketed :
    call echo (record { hsts = none; port = none }) (record bare { host = text "[::1]:8080" })
    ≡ redirected (record { made_from = text "https://[/a"; hsts = none })
unfolding call split_once
bracketed = refl
