-- ===== src/ClientIp/Fetching.antt =====
-- `fetch_trusted_cf_ips` of actix-client-ip-cloudflare/src/fetch_cf_ips.rs, without its awaiting: what
-- sending the request comes to, and what reading the response as JSON does, are awc's.
use actix_web_lab.ClientIp.{
  Networks, CfIpsFetchErr, fetch, TrustedIps, CfIpsResponse, success, try_from_response,
}
use actix_web_lab.Common.{List, map, ◌++◌, Result, ok, err, ◌>>=◌, ◌≡◌, refl}

-- `map_err` to the one error, whatever went wrong
abbrev pub or_fetch : {A E : Type 0} → Result E A → Result CfIpsFetchErr A
or_fetch (ok a) = ok a
or_fetch (err e) = err fetch

module _ (nets : Networks) {Response SendError JsonError : Type 0} where
  unfoldable pub fetch_trusted_cf_ips :
      Result SendError Response
      → (Response → Result JsonError (CfIpsResponse nets))
      → Result CfIpsFetchErr (TrustedIps nets)
  fetch_trusted_cf_ips reply json =
      or_fetch reply >>= (λ res. or_fetch (json res) >>= (λ said. try_from_response nets said))

  -- The ranges of an answer that says success are those that are trusted, IPv4's first.
  pub fetch_trusted_cf_ips-success :
      (reply : Result SendError Response) (res : Response)
      (json : Response → Result JsonError (CfIpsResponse nets)) (v4s : List nets.Ipv4Network)
      (v6s : List nets.Ipv6Network)
      → reply ≡ ok res
      → json res ≡ ok (success v4s v6s)
      → fetch_trusted_cf_ips reply json
        ≡ ok (record { cidr_ranges = map nets.v4 v4s ++ map nets.v6 v6s })
  unfolding fetch_trusted_cf_ips try_from_response
  fetch_trusted_cf_ips-success reply res json v4s v6s there said = rw (there, said) refl
