-- ===== src/Proto/Parse.antt =====
-- `socks5_udp_parse`: it stays inside the datagram, accepts the headers of RFC 1928 §7, and finds
-- their parts.
use g_proxy_pro.Base.{
  ℕ, ◌+◌, ◌≤◌, ◌<◌, ◌≡◌, ◌⊎◌, inl, inr, refl, not, ◌||◌, Option, none, some, List, arith, length,
  get_elem?, ltb, ◌==◌, Bool-cases, read_bytes_total, get_elem?-some,
}
use g_proxy_pro.Proto.{
  Parsed, atyp_ipv4, atyp_ipv6, atyp_domain, udp_parse, parse_type, parse_fixed, parse_domain,
}

-- What a caller relies on after a parse: the header ends inside the `len` bytes, the port is two
-- bytes, and the address that the offset and the type name lies inside the header.
pub record IsSound (dgram : List ℕ) (len : ℕ) (p : Parsed) : Type 0 where
  pub inside : p.header_len ≤ len
  pub after_addr : p.addr ≡ 4
  pub port_two : length p.port ≡ 2
  pub types :
      ((p.atyp ≡ atyp_ipv4) × (p.header_len ≡ 4 + 4 + 2))
      ⊎ (((p.atyp ≡ atyp_ipv6) × (p.header_len ≡ 4 + 16 + 2))
          ⊎ ((p.atyp ≡ atyp_domain)
              × ((dl : ℕ) × (get_elem? dgram 4 ≡ some dl)
                  × (0 < dl)
                  × (p.header_len ≡ 4 + 1 + dl + 2))))

-- No read outside the buffer, and a sound result if there is one.
abbrev pub Reads : List ℕ → ℕ → Option (Option Parsed) → Type 0
Reads dgram len none = ⊥
Reads dgram len (some none) = Unit {0}
Reads dgram len (some (some p)) = IsSound dgram len p

fixed-Reads :
    (dgram : List ℕ) (len t hlen port_at : ℕ)
    → len ≤ length dgram
    → hlen ≡ port_at + 2
    → ((t ≡ atyp_ipv4) × (hlen ≡ 4 + 4 + 2)) ⊎ ((t ≡ atyp_ipv6) × (hlen ≡ 4 + 16 + 2))
    → Reads dgram len (parse_fixed dgram len t hlen port_at)
unfolding parse_fixed
fixed-Reads dgram len t hlen port_at room at ty = elim (Bool-cases (ltb len hlen)) [
  | inl short ↦ rw short tt
  | inr long ↦
      let (bs, e, two) = read_bytes_total dgram port_at 2 (ground arith) in
      rw (long, e)
        (record { inside = ground arith; after_addr = refl; port_two = two; types = ground arith })
]

domain-Reads :
    (dgram : List ℕ) (len dl : ℕ)
    → len ≤ length dgram
    → get_elem? dgram 4 ≡ some dl
    → Reads dgram len (parse_domain dgram len dl)
unfolding parse_domain
domain-Reads dgram len dl room at = elim (Bool-cases (dl == 0)) [
  | inl empty ↦ rw empty tt
  | inr full ↦ elim (Bool-cases (ltb len (5 + dl + 2))) [
    | inl short ↦ rw (full, short) tt
    | inr long ↦
        let (bs, e, two) = read_bytes_total dgram (5 + dl) 2 (ground arith) in
        rw (full, long, e)
          (record {
            inside = ground arith;
            after_addr = refl;
            port_two = two;
            types = inr (inr (refl, (dl, at, ground arith, omega arith)));
          })
  ]
]

type-Reads :
    (dgram : List ℕ) (len t : ℕ)
    → 4 ≤ len
    → len ≤ length dgram
    → Reads dgram len (parse_type dgram len t)
unfolding parse_type
type-Reads dgram len t long room = elim (Bool-cases (t == atyp_ipv4)) [
  | inl is4 ↦ rw is4 (fixed-Reads dgram len t 10 8 room refl (ground arith))
  | inr no4 ↦ elim (Bool-cases (t == atyp_ipv6)) [
    | inl is6 ↦ rw (no4, is6) (fixed-Reads dgram len t 22 20 room refl (ground arith))
    | inr no6 ↦ elim (Bool-cases (t == atyp_domain)) [
      | inl dom ↦
          rw (no4, no6, dom)
            (elim (Bool-cases (ltb len 5)) [
              | inl short ↦ rw short tt
              | inr full ↦
                  let (dl, e) = get_elem?-some dgram 4 (ground arith) in
                  rw (full, e) (domain-Reads dgram len dl room e)
            ])
      | inr other ↦ rw (no4, no6, other) tt
    ]
  ]
]

-- For a datagram of at least `len` bytes the parser never reads outside it, whatever the bytes are,
-- and if it accepts, the header it found is complete within `len`: 10 bytes for IPv4, 22 for IPv6,
-- and for a domain name seven and its length, which is not 0.
pub udp_parse-Reads :
    (dgram : List ℕ) (len : ℕ) → len ≤ length dgram → Reads dgram len (udp_parse dgram len)
unfolding udp_parse
udp_parse-Reads dgram len room = elim (Bool-cases (ltb len 4)) [
  | inl short ↦ rw short tt
  | inr long ↦
      let (r0, e0) = get_elem?-some dgram 0 (ground arith) in
      let (r1, e1) = get_elem?-some dgram 1 (ground arith) in
      let (r2, e2) = get_elem?-some dgram 2 (ground arith) in
      let (t, e3) = get_elem?-some dgram 3 (ground arith) in
      rw (long, e0, e1, e2, e3)
        (elim (Bool-cases (not (r0 == 0) || not (r1 == 0))) [
          | inl bad ↦ rw bad tt
          | inr rsv ↦ rw rsv (elim (Bool-cases (not (r2 == 0))) [
            | inl bad ↦ rw bad tt
            | inr frag ↦ rw frag (type-Reads dgram len t (ground arith) room)
          ])
        ])
]
