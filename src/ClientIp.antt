-- ===== src/ClientIp.antt =====
-- actix-client-ip-cloudflare/src: the ranges of trusted addresses (fetch_cf_ips.rs) and the
-- extractor of a client's address (extract.rs).
pub mod Ranges
pub mod Laws
pub mod Headers
pub mod Fetching
mod Tests
use actix_web_lab.Common.{
  ℕ, ◌+◌, ◌*◌, ◌-◌, ◌/◌, ◌^◌, ◌≤◌, Bool, true, false, ◌||◌, if◌then◌else◌, ◌==◌, ◌≡◌, List, [], ◌∷◌,
  ◌++◌, map, Option, none, some, Result, ok, err,
}

-- What the code uses of std's addresses and of the ipnetwork crate: a network of IPv4 holds the
-- addresses that share its first bits, as many as the prefix says. IPv4 addresses are numbers.
pub record Networks : Type 1 where
  pub IpAddr : Type 0
  pub Ipv4Network : Type 0
  pub Ipv6Network : Type 0
  pub IpNetwork : Type 0
  pub ipv4 : ℕ → IpAddr
  pub v4 : Ipv4Network → IpNetwork
  pub v6 : Ipv6Network → IpNetwork
  pub network : (address prefix : ℕ) → Ipv4Network
  pub is_in : IpNetwork → IpAddr → Bool
  pub is_in_network :
      (address prefix ip : ℕ)
      → prefix ≤ 32
      → is_in (v4 (network address prefix)) (ipv4 ip)
        ≡ (address / 2 ^ (32 - prefix) == ip / 2 ^ (32 - prefix))

-- `Ipv4Addr::from([a, b, c, d])`
abbrev pub octets : (a b c d : ℕ) → ℕ
octets a b c d = ((a * 256 + b) * 256 + c) * 256 + d

pub data CfIpsFetchErr : Type 0 where
  fetch : CfIpsFetchErr

-- What an extraction comes to: the `unwrap` of the peer's address may panic.
pub data Extracted (A E : Type 0) : Type 0 where
  panics : Extracted A E
  extracted : Result E A → Extracted A E

-- The messages of `bad_req`
pub data Refusal : Type 0 where
  header_not_present no_trusted_ips untrusted_peer : Refusal

-- `Result::or`
abbrev pub or_else : {A E : Type 0} → Result E A → Result E A → Result E A
or_else (ok a) other = ok a
or_else (err e) other = other

module _ (nets : Networks) where
  pub record TrustedIps : Type 0 where
    pub cidr_ranges : List nets.IpNetwork

  pub data CfIpsResponse : Type 0 where
    success :
        (ipv4_cidrs : List nets.Ipv4Network) (ipv6_cidrs : List nets.Ipv6Network) → CfIpsResponse
    failure : Bool → CfIpsResponse

  unfoldable pub new : TrustedIps
  new = record { cidr_ranges = [] }

  unfoldable pub add_ip_range : TrustedIps → nets.IpNetwork → TrustedIps
  add_ip_range t cidr = record { cidr_ranges = t.cidr_ranges ++ cidr ∷ [] }

  unfoldable pub add_loopback_ips : TrustedIps → TrustedIps
  add_loopback_ips t = add_ip_range t (nets.v4 (nets.network (octets 127 0 0 0) 8))

  unfoldable pub add_private_ips : TrustedIps → TrustedIps
  add_private_ips t =
      add_ip_range (add_ip_range t (nets.v4 (nets.network (octets 10 0 0 0) 8)))
        (nets.v4 (nets.network (octets 192 168 0 0) 16))

  -- `any` over the ranges
  abbrev pub any_range : List nets.IpNetwork → nets.IpAddr → Bool
  any_range [] ip = false
  any_range (cidr ∷ cidrs) ip = nets.is_in cidr ip || any_range cidrs ip

  unfoldable pub contains : TrustedIps → nets.IpAddr → Bool
  contains t ip = any_range t.cidr_ranges ip

  unfoldable pub try_from_response : CfIpsResponse → Result CfIpsFetchErr TrustedIps
  try_from_response (failure s) = err fetch
  try_from_response (success ipv4_cidrs ipv6_cidrs) =
      ok (record { cidr_ranges = map nets.v4 ipv4_cidrs ++ map nets.v6 ipv6_cidrs })

  -- The end of `from_request`
  unfoldable pub check_peer :
      nets.IpAddr → TrustedIps → Option nets.IpAddr → Extracted nets.IpAddr Refusal
  check_peer client_ip trusted_ips none = panics
  check_peer client_ip trusted_ips (some peer_ip) =
      if contains trusted_ips peer_ip
      then extracted (ok client_ip)
      else extracted (err untrusted_peer)

  unfoldable pub check_trusted :
      nets.IpAddr → Option TrustedIps → Option nets.IpAddr → Extracted nets.IpAddr Refusal
  unfolding check_peer
  check_trusted client_ip none peer = extracted (err no_trusted_ips)
  check_trusted client_ip (some trusted_ips) peer = check_peer client_ip trusted_ips peer

  unfoldable pub check_client :
      {E : Type 0}
      → Result E nets.IpAddr
      → Option TrustedIps
      → Option nets.IpAddr
      → Extracted nets.IpAddr Refusal
  unfolding check_trusted
  check_client (err e) app_data peer = extracted (err header_not_present)
  check_client (ok client_ip) app_data peer = check_trusted client_ip app_data peer

  -- `TrustedClientIp::from_request`, from the two parsed headers, the app data and the peer's
  -- address
  unfoldable pub from_request :
      {E : Type 0}
      → Result E nets.IpAddr
      → Result E nets.IpAddr
      → Option TrustedIps
      → Option nets.IpAddr
      → Extracted nets.IpAddr Refusal
  unfolding check_client
  from_request client_ip_hdr client_ipv6_hdr app_data peer =
      check_client (or_else client_ip_hdr client_ipv6_hdr) app_data peer
