-- ===== src/ClientIp/Tests.antt =====
-- The theorems on trusted addresses, with IPv4 networks as pairs of an address and a prefix.
use actix_web_lab.Common.{
  ℕ, ◌-◌, ◌/◌, ◌^◌, Bool, false, ◌==◌, ◌≡◌, ◌↔◌, refl, arith, [], ◌∷◌, Option, none, some, Result,
  ok, err, true, ◌⊎◌,
}
use actix_web_lab.ClientIp.{
  Networks, octets, TrustedIps, add_loopback_ips, add_private_ips, contains, extracted,
  from_request, true,
}
use actix_web_lab.ClientIp.Laws.{IsTrusted, from_request-IsTrusted}
use actix_web_lab.ClientIp.Ranges.{IsIn, IsPrivate, contains-add_private_ips}

abbrev shares_prefix : Option (ℕ × ℕ) → ℕ → Bool
shares_prefix none ip = false
shares_prefix (some (address, prefix)) ip = address / 2 ^ (32 - prefix) == ip / 2 ^ (32 - prefix)

abbrev pairs : Networks
pairs = record {
  IpAddr = ℕ;
  Ipv4Network = ℕ × ℕ;
  Ipv6Network = Unit {0};
  IpNetwork = Option (ℕ × ℕ);
  ipv4 = λ ip. ip;
  v4 = λ net. some net;
  v6 = λ net. none;
  network = λ address prefix. (address, prefix);
  is_in = shares_prefix;
  is_in_network = λ address prefix ip h. refl;
}

abbrev one_range : TrustedIps pairs
one_range = record { cidr_ranges = some (octets 103 21 244 0, 22) ∷ [] }

contains-add_private_ips_example :
    (contains pairs (add_private_ips pairs (add_loopback_ips pairs one_range)) (octets 192 168 1 7)
      ≡ true)
    ↔ (IsIn pairs one_range (octets 192 168 1 7)
        ⊎ IsPrivate pairs 192 168 1 7 (omega arith) (omega arith) (omega arith))
contains-add_private_ips_example =
    contains-add_private_ips pairs 192 168 1 7 (omega arith) (omega arith) (omega arith) one_range

abbrev no_header : Result (Unit {0}) ℕ
no_header = err tt

from_request-IsTrusted_example :
    (from_request pairs no_header (ok 99) (some one_range) (some (octets 103 21 245 1))
      ≡ extracted (ok 99))
    ↔ IsTrusted pairs no_header (ok 99) (some one_range) (some (octets 103 21 245 1)) 99
from_request-IsTrusted_example =
    from_request-IsTrusted pairs no_header (ok 99) (some one_range) (some (octets 103 21 245 1)) 99
