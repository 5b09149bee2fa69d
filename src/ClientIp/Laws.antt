-- ===== src/ClientIp/Laws.antt =====
-- Which client's address is believed.
use actix_web_lab.Common.{
  none, some, ◌↔◌, ok, err, Bool-cases, inl, inr, ap, ◌∙◌, true, ◌≡◌, refl, ap, ◌∙◌, Option, none,
  some, Result, ok, err, Bool-cases, inl, inr, ◌⊎◌,
}
use actix_web_lab.ClientIp.{
  header_not_present, no_trusted_ips, untrusted_peer, Networks, Extracted, extracted, Refusal,
  or_else, TrustedIps, contains, check_peer, check_trusted, check_client, from_request,
  untrusted_peer,
}
use actix_web_lab.ClientIp.Ranges.{IsIn, contains-IsIn}

module _ (nets : Networks) where
  -- What is asked of a request whose client's address is believed.
  pub record IsTrusted {E : Type 0} (hdr hdr6 : Result E nets.IpAddr)
      (app_data : Option (TrustedIps nets)) (peer : Option nets.IpAddr) (client_ip : nets.IpAddr)
      : Type 0 where
    pub from_header : (hdr ≡ ok client_ip) ⊎ ((e : E) × (hdr ≡ err e) × (hdr6 ≡ ok client_ip))
    pub trusted : TrustedIps nets
    pub configured : app_data ≡ some trusted
    pub peer_ip : nets.IpAddr
    pub connected : peer ≡ some peer_ip
    pub is_trusted : IsIn nets trusted peer_ip

  or_else-first :
      {E : Type 0} (hdr hdr6 : Result E nets.IpAddr) {ip : nets.IpAddr}
      → or_else hdr hdr6 ≡ ok ip
      → (hdr ≡ ok ip) ⊎ ((e : E) × (hdr ≡ err e) × (hdr6 ≡ ok ip))
  or_else-first (ok a) hdr6 h = inl h
  or_else-first (err e) hdr6 h = inr (e, refl, h)

  or_else_of_first :
      {E : Type 0} (hdr hdr6 : Result E nets.IpAddr) {ip : nets.IpAddr}
      → (hdr ≡ ok ip) ⊎ ((e : E) × (hdr ≡ err e) × (hdr6 ≡ ok ip))
      → or_else hdr hdr6 ≡ ok ip
  or_else_of_first (ok a) hdr6 (inl h) = h
  or_else_of_first (ok a) hdr6 (inr (e, failed, h)) = cc
  or_else_of_first (err e) hdr6 (inl h) = cc
  or_else_of_first (err e) hdr6 (inr (f, failed, h)) = h

  abbrev Outcome : Type 0
  Outcome = Extracted nets.IpAddr Refusal

  same_address :
      (a b : nets.IpAddr) → ◌≡◌ {A = Outcome} (extracted (ok a)) (extracted (ok b)) → a ≡ b
  same_address a b h = cc

  no_address :
      (r : Refusal) (b : nets.IpAddr) → ◌≡◌ {A = Outcome} (extracted (err r)) (extracted (ok b)) → ⊥
  no_address r b h = cc

  check_peer-trusted :
      (client_ip ip : nets.IpAddr) (trusted : TrustedIps nets) (peer : Option nets.IpAddr)
      → check_peer nets client_ip trusted peer ≡ extracted (ok ip)
      → (peer_ip : nets.IpAddr) × (peer ≡ some peer_ip)
        × (contains nets trusted peer_ip ≡ true)
        × (client_ip ≡ ip)
  unfolding check_peer
  check_peer-trusted client_ip ip trusted none h = cc
  check_peer-trusted client_ip ip trusted (some peer_ip) h =
      elim (Bool-cases (contains nets trusted peer_ip)) [
        | inl inside ↦ (peer_ip, refl, inside, same_address client_ip ip (rw inside at h))
        | inr outside ↦ absurd (no_address untrusted_peer ip (rw outside at h))
      ]

  check_trusted-IsTrusted :
      {E : Type 0} (hdr hdr6 : Result E nets.IpAddr) (app_data : Option (TrustedIps nets))
      (peer : Option nets.IpAddr) (client_ip ip : nets.IpAddr)
      → or_else hdr hdr6 ≡ ok client_ip
      → check_trusted nets client_ip app_data peer ≡ extracted (ok ip)
      → IsTrusted hdr hdr6 app_data peer ip
  unfolding check_trusted
  check_trusted-IsTrusted hdr hdr6 none peer client_ip ip e h =
      absurd (no_address no_trusted_ips ip h)
  check_trusted-IsTrusted hdr hdr6 (some trusted) peer client_ip ip e h =
      let (peer_ip, connected, inside, same) = check_peer-trusted client_ip ip trusted peer h in
      record {
        from_header = or_else-first hdr hdr6 (e ∙ ap ok same);
        trusted = trusted;
        configured = refl;
        peer_ip = peer_ip;
        connected = connected;
        is_trusted = (contains-IsIn nets trusted peer_ip).0 inside;
      }

  check_client-IsTrusted :
      {E : Type 0} (hdr hdr6 found : Result E nets.IpAddr) (app_data : Option (TrustedIps nets))
      (peer : Option nets.IpAddr) (ip : nets.IpAddr)
      → or_else hdr hdr6 ≡ found
      → check_client nets found app_data peer ≡ extracted (ok ip)
      → IsTrusted hdr hdr6 app_data peer ip
  unfolding check_client
  check_client-IsTrusted hdr hdr6 (err failure) app_data peer ip e h =
      absurd (no_address header_not_present ip h)
  check_client-IsTrusted hdr hdr6 (ok client_ip) app_data peer ip e h =
      check_trusted-IsTrusted hdr hdr6 app_data peer client_ip ip e h

  check_of_IsTrusted :
      {E : Type 0} (hdr hdr6 : Result E nets.IpAddr) (app_data : Option (TrustedIps nets))
      (peer : Option nets.IpAddr) (ip : nets.IpAddr)
      → IsTrusted hdr hdr6 app_data peer ip
      → from_request nets hdr hdr6 app_data peer ≡ extracted (ok ip)
  unfolding from_request check_client check_trusted check_peer
  check_of_IsTrusted hdr hdr6 app_data peer ip t =
      rw
        (
          or_else_of_first hdr hdr6 t.from_header,
          t.configured,
          t.connected,
          (contains-IsIn nets t.trusted t.peer_ip).1 t.is_trusted,
        )
        refl

  -- An address is believed to be the client's exactly if it stands in the first of the two headers
  -- that parses, a set of trusted ranges was configured, and the peer that sent the request has an
  -- address in some range of it.
  pub from_request-IsTrusted :
      {E : Type 0} (hdr hdr6 : Result E nets.IpAddr) (app_data : Option (TrustedIps nets))
      (peer : Option nets.IpAddr) (ip : nets.IpAddr)
      → (from_request nets hdr hdr6 app_data peer ≡ extracted (ok ip))
        ↔ IsTrusted hdr hdr6 app_data peer ip
  unfolding from_request
  from_request-IsTrusted hdr hdr6 app_data peer ip = (
    check_client-IsTrusted hdr hdr6 (or_else hdr hdr6) app_data peer ip refl,
    check_of_IsTrusted hdr hdr6 app_data peer ip,
  )
