-- ===== src/ClientIp/Headers.antt =====
-- actix-client-ip-cloudflare/src/header_v4.rs and header_v6.rs: the headers that hold a client's
-- address. std's display and parse of an address are parameters, and so are what a header's name
-- gives in a message and actix-http's reading of one value.
use actix_web_lab.Text.{Text}
use actix_web_lab.Common.{Option, Result, ◌≡◌, some, ok, err, ap, Bool, true, false, arith}

pub data CfConnectingIp (IpAddr : Type 0) : Type 0 where
  trusted untrusted : IpAddr → CfConnectingIp IpAddr

pub data CfConnectingIpv6 (IpAddr : Type 0) : Type 0 where
  trusted_v6 untrusted_v6 : IpAddr → CfConnectingIpv6 IpAddr

-- What is used of addresses as header values: a value that cannot be made of a text is a panic.
pub record Addresses : Type 1 where
  pub IpAddr : Type 0
  pub Value : Type 0
  pub ParseError : Type 0
  pub display : IpAddr → Text
  pub parse_value : Text → Option Value
  pub from_one_raw_str : Option Value → Result ParseError IpAddr
  pub read_back :
      (ip : IpAddr)
      → (v : Value) × (parse_value (display ip) ≡ some v) × (from_one_raw_str (some v) ≡ ok ip)

module _ (a : Addresses) where
  unfoldable pub ip : CfConnectingIp a.IpAddr → a.IpAddr
  ip (trusted address) = address
  ip (untrusted address) = address

  unfoldable pub try_into_value : CfConnectingIp a.IpAddr → Option a.Value
  try_into_value h = a.parse_value (a.display (ip h))

  abbrev pub untrusted_of :
      Result a.ParseError a.IpAddr → Result a.ParseError (CfConnectingIp a.IpAddr)
  untrusted_of (ok address) = ok (untrusted address)
  untrusted_of (err e) = err e

  -- `parse`, from the value that the message has under the header's name
  unfoldable pub parse : Option a.Value → Result a.ParseError (CfConnectingIp a.IpAddr)
  parse value = untrusted_of (a.from_one_raw_str value)

  unfoldable pub ip_v6 : CfConnectingIpv6 a.IpAddr → a.IpAddr
  ip_v6 (trusted_v6 address) = address
  ip_v6 (untrusted_v6 address) = address

  unfoldable pub is_trusted : CfConnectingIpv6 a.IpAddr → Bool
  is_trusted (trusted_v6 address) = true
  is_trusted (untrusted_v6 address) = false

  unfoldable pub try_into_value_v6 : CfConnectingIpv6 a.IpAddr → Option a.Value
  try_into_value_v6 h = a.parse_value (a.display (ip_v6 h))

  abbrev pub untrusted_v6_of :
      Result a.ParseError a.IpAddr → Result a.ParseError (CfConnectingIpv6 a.IpAddr)
  untrusted_v6_of (ok address) = ok (untrusted_v6 address)
  untrusted_v6_of (err e) = err e

  unfoldable pub parse_v6 : Option a.Value → Result a.ParseError (CfConnectingIpv6 a.IpAddr)
  parse_v6 value = untrusted_v6_of (a.from_one_raw_str value)

  -- A header is written and read back with its address, but never as a trusted one.
  pub parse-try_into_value :
      (h : CfConnectingIp a.IpAddr)
      → (v : a.Value) × (try_into_value h ≡ some v) × (parse (some v) ≡ ok (untrusted (ip h)))
  unfolding try_into_value parse
  parse-try_into_value h =
      let (v, written, back) = a.read_back (ip h) in (v, written, ap untrusted_of back)

  pub untrusted_v6_of-is_trusted :
      (said : Result a.ParseError a.IpAddr) (h : CfConnectingIpv6 a.IpAddr)
      → untrusted_v6_of said ≡ ok h
      → is_trusted h ≡ false
  unfolding is_trusted
  untrusted_v6_of-is_trusted (ok address) h parsed = grind arith
  untrusted_v6_of-is_trusted (err e) h parsed = grind arith

  -- And no address that a message brings is trusted.
  pub parse_v6-is_trusted :
      (value : Option a.Value) (h : CfConnectingIpv6 a.IpAddr)
      → parse_v6 value ≡ ok h
      → is_trusted h ≡ false
  unfolding parse_v6 is_trusted
  parse_v6-is_trusted value h parsed =
      untrusted_v6_of-is_trusted (a.from_one_raw_str value) h parsed
