-- ===== src/ClientIp/Ranges.antt =====
-- Which addresses a set of trusted ranges holds.
use actix_web_lab.Common.{
  ◌↔◌, Bool-cases, inl, inr, ◌∙◌, ℕ, ◌+◌, ◌*◌, ◌/◌, ◌<◌, true, ◌||◌, ◌&&◌, ◌==◌, ◌≡◌, refl, ◌∙◌,
  arith, List, [], ◌∷◌, ◌++◌, Bool-cases, inl, inr, Some, ◌⊎◌, or-cases, sym, or_of,
}
use actix_web_lab.ClientIp.{
  Networks, octets, TrustedIps, add_ip_range, add_loopback_ips, add_private_ips, any_range,
  contains,
}

module _ (nets : Networks) where
  any_range-append :
      (a b : List nets.IpNetwork) (ip : nets.IpAddr)
      → any_range nets (a ++ b) ip ≡ any_range nets a ip || any_range nets b ip
  any_range-append [] b ip = refl
  any_range-append (cidr ∷ a) b ip = ground (arith, any_range-append a b ip)

  -- An address is in a set if some range of the set holds it.
  abbrev pub IsIn : TrustedIps nets → nets.IpAddr → Type 0
  IsIn t ip = Some (λ cidr. nets.is_in cidr ip ≡ true) t.cidr_ranges

  any_range-Some :
      (cidrs : List nets.IpNetwork) (ip : nets.IpAddr)
      → any_range nets cidrs ip ≡ true
      → Some (λ cidr. nets.is_in cidr ip ≡ true) cidrs
  any_range-Some [] ip h = cc
  any_range-Some (cidr ∷ cidrs) ip h = elim (Bool-cases (nets.is_in cidr ip)) [
    | inl inside ↦ inl inside
    | inr outside ↦ inr (any_range-Some cidrs ip (rw outside at h))
  ]

  any_range_of_Some :
      (cidrs : List nets.IpNetwork) (ip : nets.IpAddr)
      → Some (λ cidr. nets.is_in cidr ip ≡ true) cidrs
      → any_range nets cidrs ip ≡ true
  any_range_of_Some [] ip h = absurd h
  any_range_of_Some (cidr ∷ cidrs) ip (inl inside) = rw inside refl
  any_range_of_Some (cidr ∷ cidrs) ip (inr below) = ground (arith, any_range_of_Some cidrs ip below)

  pub contains-IsIn :
      (t : TrustedIps nets) (ip : nets.IpAddr) → (contains nets t ip ≡ true) ↔ IsIn t ip
  unfolding contains
  contains-IsIn t ip = (any_range-Some t.cidr_ranges ip, any_range_of_Some t.cidr_ranges ip)

  contains-add_ip_range :
      (t : TrustedIps nets) (cidr : nets.IpNetwork) (ip : nets.IpAddr)
      → contains nets (add_ip_range nets t cidr) ip ≡ contains nets t ip || nets.is_in cidr ip
  unfolding contains add_ip_range
  contains-add_ip_range t cidr ip = ground (arith, any_range-append t.cidr_ranges (cidr ∷ []) ip)

  module _ (a b c d : ℕ) (hb : b < 256) (hc : c < 256) (hd : d < 256) where
    octets-first : octets a b c d / 16777216 ≡ a
    octets-first = omega arith

    octets-second : octets a b c d / 65536 ≡ a * 256 + b
    octets-second = omega arith

    in_eight :
        (n : ℕ)
        → nets.is_in (nets.v4 (nets.network (octets n 0 0 0) 8)) (nets.ipv4 (octets a b c d))
          ≡ (a == n)
    in_eight n =
        nets.is_in_network (octets n 0 0 0) 8 (octets a b c d) (omega arith)
        ∙ rw octets-first (ground arith)

    in_sixteen :
        nets.is_in (nets.v4 (nets.network (octets 192 168 0 0) 16)) (nets.ipv4 (octets a b c d))
        ≡ (a == 192 && b == 168)
    in_sixteen =
        nets.is_in_network (octets 192 168 0 0) 16 (octets a b c d) (omega arith)
        ∙ rw octets-second (ground arith)

    contains_added :
        (t : TrustedIps nets)
        → contains nets
            (add_private_ips nets (add_loopback_ips nets t))
            (nets.ipv4 (octets a b c d))
          ≡ contains nets t (nets.ipv4 (octets a b c d))
            || (a == 127 || (a == 10 || (a == 192 && b == 168)))
    unfolding add_private_ips add_loopback_ips
    contains_added t =
        rw
          (
            contains-add_ip_range _ (nets.v4 (nets.network (octets 192 168 0 0) 16))
                (nets.ipv4 (octets a b c d)),
            contains-add_ip_range _ (nets.v4 (nets.network (octets 10 0 0 0) 8))
                (nets.ipv4 (octets a b c d)),
            contains-add_ip_range t (nets.v4 (nets.network (octets 127 0 0 0) 8))
                (nets.ipv4 (octets a b c d)),
            in_eight 127,
            in_eight 10,
            in_sixteen,
          )
          (ground arith)

    -- What begins an address: 127, 10, or 192.168
    abbrev pub IsPrivate : Type 0
    IsPrivate = (a ≡ 127) ⊎ ((a ≡ 10) ⊎ ((a ≡ 192) × (b ≡ 168)))

    added-IsPrivate : (a == 127 || (a == 10 || (a == 192 && b == 168))) ≡ true → IsPrivate
    added-IsPrivate h = ground arith

    added_of_IsPrivate : IsPrivate → (a == 127 || (a == 10 || (a == 192 && b == 168))) ≡ true
    added_of_IsPrivate h = ground arith

    -- With the loopback and the private ranges added, a set holds the IPv4 addresses that some range of
    -- it held before, those that begin with 127, with 10, and with 192.168, and no other.
    pub contains-add_private_ips :
        (t : TrustedIps nets)
        → (contains nets
              (add_private_ips nets (add_loopback_ips nets t))
              (nets.ipv4 (octets a b c d))
            ≡ true)
          ↔ (IsIn t (nets.ipv4 (octets a b c d)) ⊎ IsPrivate)
    contains-add_private_ips t =
        let (held, has) = contains-IsIn t (nets.ipv4 (octets a b c d)) in
        (
          λ h. elim (or-cases _ _ (sym (contains_added t) ∙ h)) [
            | inl before ↦ inl (held before)
            | inr added ↦ inr (added-IsPrivate added)
          ],
          λ h.
              contains_added t
              ∙ or_of _ _ (elim h [
                | inl before ↦ inl (has before)
                | inr private_one ↦ inr (added_of_IsPrivate private_one)
              ]),
        )
