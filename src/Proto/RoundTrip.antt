-- ===== src/Proto/RoundTrip.antt =====
-- What the encoder writes the parser reads back, and the header of a domain name is read as RFC 1928
-- says.
use mathlib.Core.List.{append_assoc, append-nil}
use g_proxy_pro.Base.{
  ℕ, ◌+◌, ◌<◌, ◌≡◌, refl, sym, ap, ◌∙◌, Bool, true, false, some, List, [], ◌∷◌, ◌++◌, arith, length,
  read_bytes, read_bytes-append, length-append,
}
use g_proxy_pro.Proto.{udp_encode, atyp_domain, udp_parse, parse_type, parse_fixed, parse_domain}
use g_proxy_pro.Proto.Encode.{encode_lem, addr_size, atyp_of, udp_header}

parse_fixed_lem :
    (is_v6 : Bool) (addr port payload : List ℕ)
    → length addr ≡ addr_size is_v6
    → length port ≡ 2
    → let dgram = 0 ∷ 0 ∷ 0 ∷ atyp_of is_v6 ∷ (addr ++ (port ++ payload)) in
      (udp_parse dgram (length dgram)
        ≡ some (
            some (record {
              header_len = 6 + addr_size is_v6;
              atyp = atyp_of is_v6;
              addr = 4;
              port = port;
            })))
      × (read_bytes dgram 4 (addr_size is_v6) ≡ some addr)
unfolding udp_parse parse_type parse_fixed read_bytes
parse_fixed_lem false addr port payload full two = (
  ground (
    arith,
    length-append addr (port ++ payload),
    length-append port payload,
    read_bytes-append addr port payload 4 2 (omega arith) (omega arith),
  ),
  read_bytes-append [] addr (port ++ payload) 0 4 refl (omega arith),
)
parse_fixed_lem true addr port payload full two = (
  ground (
    arith,
    length-append addr (port ++ payload),
    length-append port payload,
    read_bytes-append addr port payload 16 2 (omega arith) (omega arith),
  ),
  read_bytes-append [] addr (port ++ payload) 0 16 refl (omega arith),
)

udp_parse-udp_header :
    (is_v6 : Bool) (addr port payload : List ℕ)
    → length addr ≡ addr_size is_v6
    → length port ≡ 2
    → let dgram = udp_header is_v6 addr port ++ payload in
      (udp_parse dgram (length dgram)
        ≡ some (
            some (record {
              header_len = 6 + addr_size is_v6;
              atyp = atyp_of is_v6;
              addr = 4;
              port = port;
            })))
      × (read_bytes dgram 4 (addr_size is_v6) ≡ some addr)
udp_parse-udp_header is_v6 addr port payload full two =
    rw (append_assoc addr port payload) (parse_fixed_lem is_v6 addr port payload full two)

-- Into a buffer that has room for the header in front of a payload, `socks5_udp_encode` writes a header
-- that `socks5_udp_parse` reads back, for any address of either kind and any port: the size that the
-- encoder returned, the type, the port, and an offset at which the address stands; and the payload
-- stands behind the header.
pub udp_parse-udp_encode :
    (is_v6 : Bool) (addr port old payload : List ℕ)
    → length addr ≡ addr_size is_v6
    → length port ≡ 2
    → length old ≡ 6 + addr_size is_v6
    → (dgram : List ℕ) × (n : ℕ) × (udp_encode (old ++ payload) 0 is_v6 addr port ≡ some (dgram, n))
      × (udp_parse dgram (length dgram)
          ≡ some (some (record { header_len = n; atyp = atyp_of is_v6; addr = 4; port = port })))
      × (read_bytes dgram 4 (addr_size is_v6) ≡ some addr)
      × (read_bytes dgram n (length payload) ≡ some payload)
udp_parse-udp_encode is_v6 addr port old payload full two room =
    let (parsed, there) = udp_parse-udp_header is_v6 addr port payload full two in
    let header = udp_header is_v6 addr port in
    (
      header ++ payload,
      6 + addr_size is_v6,
      (encode_lem 0 is_v6 addr port [] old payload full two room).0,
      parsed,
      there,
      ap (λ l. read_bytes (header ++ l) (6 + addr_size is_v6) (length payload))
            (sym (append-nil payload))
          ∙ read_bytes-append header payload [] (6 + addr_size is_v6) (length payload)
              (omega (arith, full, two, length-append addr port)) refl,
    )

-- A header with a domain name of 1 to 255 bytes is accepted; the offset found is that of the length
-- byte, behind which the name stands.
pub udp_parse_domain :
    (name port payload : List ℕ)
    → 0 < length name
    → length port ≡ 2
    → let dgram = 0 ∷ 0 ∷ 0 ∷ atyp_domain ∷ length name ∷ (name ++ (port ++ payload)) in
      (udp_parse dgram (length dgram)
        ≡ some (
            some (record {
              header_len = 5 + length name + 2;
              atyp = atyp_domain;
              addr = 4;
              port = port;
            })))
      × (read_bytes dgram 5 (length name) ≡ some name)
unfolding udp_parse parse_type parse_domain read_bytes
udp_parse_domain name port payload some_name two = (
  ground (arith, length-append name (port ++ payload), length-append port payload, found),
  read_bytes-append [] name (port ++ payload) 0 (length name) refl refl,
)
  where
    found :
        read_bytes
          (0 ∷ 0 ∷ 0 ∷ atyp_domain ∷ length name ∷ (name ++ (port ++ payload)))
          (5 + length name)
          2
        ≡ some port
    found =
        read_bytes-append (0 ∷ 0 ∷ 0 ∷ atyp_domain ∷ length name ∷ name) port payload
          (5 + length name) 2 (omega arith) (omega arith)
