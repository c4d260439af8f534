-- ===== src/Proto.antt =====
-- app/src/main/cpp/socks5_protocol.c and .h: the byte-level functions of the SOCKS5 protocol.
-- A buffer is a list of bytes. A function that reads or writes through a pointer returns an option:
-- `none` is an access outside the buffer. Inside it stands the C result, where -1 is `none` again.
pub mod Parse
pub mod Encode
pub mod RoundTrip
pub mod Credentials
pub mod Address
mod Tests
use g_proxy_pro.Base.{
  ℕ, zero, suc, ◌+◌, ◌*◌, ◌%◌, ◌^◌, bit_or, Bool, true, false, not, ◌&&◌, ◌||◌, Option, none, some,
  List, [], ◌∷◌, ◌++◌, ltb, leb, ◌==◌, if◌then◌else◌, ◌>>=◌, length, get_elem?, replicate, bytes_eq,
  read_bytes, write_bytes,
}

abbrev pub atyp_ipv4 : ℕ
atyp_ipv4 = 0x01

abbrev pub atyp_domain : ℕ
atyp_domain = 0x03

abbrev pub atyp_ipv6 : ℕ
atyp_ipv6 = 0x04

-- The pointer moves on with `i`.
pub method_offered : List ℕ → ℕ → ℕ → Option Bool
method_offered methods zero desired_method = some false
method_offered [] (suc n) desired_method = none
method_offered (m ∷ methods) (suc n) desired_method =
    let rest = method_offered methods n desired_method in
    if m == desired_method then some true else rest

-- `len == (unsigned char)strlen(expected) && memcmp(field, expected, len) == 0`; the list `expected`
-- is the C string without the zero byte that ends it.
pub field_ok : List ℕ → ℕ → List ℕ → Option Bool
field_ok field len expected =
    if len == length expected % 256
    then (do
      a ← read_bytes field 0 len
      b ← read_bytes (expected ++ 0 ∷ []) 0 len
      some (bytes_eq a b))
    else some false

pub check_credentials : List ℕ → ℕ → List ℕ → ℕ → List ℕ → List ℕ → Option Bool
check_credentials user ulen pass plen expected_user expected_pass = do
  user_ok ← field_ok user ulen expected_user
  pass_ok ← field_ok pass plen expected_pass
  some (user_ok && pass_ok)

-- `some true` is the C result 0, `some false` is -1.
pub validate_request_header : List ℕ → Option Bool
validate_request_header req = do
  ver ← get_elem? req 0
  rsv ← get_elem? req 2
  atyp ← get_elem? req 3
  some (
      if not (ver == 0x05)
      then false
      else if not (rsv == 0x00)
      then false
      else if not (atyp == 0x01) && (not (atyp == 0x03) && not (atyp == 0x04))
      then false
      else true)

unfoldable pub is_supported_cmd : ℕ → Bool
is_supported_cmd cmd = cmd == 0x01 || cmd == 0x03 || cmd == 0x04

-- What `socks5_udp_parse` writes through its pointers, and its result: `addr` is an offset into the
-- datagram.
pub record Parsed : Type 0 where
  pub header_len : ℕ
  pub atyp : ℕ
  pub addr : ℕ
  pub port : List ℕ

-- The branches for an address of fixed size: the header ends at `hlen`, its port stands at `port_at`.
parse_fixed : List ℕ → ℕ → ℕ → ℕ → ℕ → Option (Option Parsed)
parse_fixed dgram len t hlen port_at = if ltb len hlen then some none else (do
  port ← read_bytes dgram port_at 2
  some (some (record { header_len = hlen; atyp = t; addr = 4; port = port })))

parse_domain : List ℕ → ℕ → ℕ → Option (Option Parsed)
parse_domain dgram len dl =
    if dl == 0 then some none else if ltb len (5 + dl + 2) then some none else (do
      port ← read_bytes dgram (5 + dl) 2
      some (some (record { header_len = 5 + dl + 2; atyp = atyp_domain; addr = 4; port = port })))

parse_type : List ℕ → ℕ → ℕ → Option (Option Parsed)
unfolding parse_fixed parse_domain
parse_type dgram len t =
    if t == atyp_ipv4
    then parse_fixed dgram len t 10 8
    else if t == atyp_ipv6
    then parse_fixed dgram len t 22 20
    else if t == atyp_domain
    then (if ltb len 5 then some none else get_elem? dgram 4 >>= parse_domain dgram len)
    else some none

pub udp_parse : List ℕ → ℕ → Option (Option Parsed)
unfolding parse_type
udp_parse dgram len = if ltb len 4 then some none else (do
  rsv0 ← get_elem? dgram 0
  rsv1 ← get_elem? dgram 1
  frag ← get_elem? dgram 2
  t ← get_elem? dgram 3
  if not (rsv0 == 0) || not (rsv1 == 0)
      then some none
      else if not (frag == 0)
      then some none
      else parse_type dgram len t)

-- Writes `[ATYP][ADDR][PORT]` at `p`, an offset into the buffer.
pub encode_addr_port : List ℕ → ℕ → Bool → List ℕ → List ℕ → Option (List ℕ × ℕ)
encode_addr_port buf p is_v6 addr port =
    if not is_v6
    then (do
      buf ← write_bytes buf p (atyp_ipv4 ∷ [])
      a ← read_bytes addr 0 4
      buf ← write_bytes buf (p + 1) a
      t ← read_bytes port 0 2
      buf ← write_bytes buf (p + 5) t
      some (buf, 7))
    else (do
      buf ← write_bytes buf p (atyp_ipv6 ∷ [])
      a ← read_bytes addr 0 16
      buf ← write_bytes buf (p + 1) a
      t ← read_bytes port 0 2
      buf ← write_bytes buf (p + 17) t
      some (buf, 19))

pub udp_encode : List ℕ → ℕ → Bool → List ℕ → List ℕ → Option (List ℕ × ℕ)
udp_encode buf out is_v6 addr port = do
  buf ← write_bytes buf out (0 ∷ 0 ∷ 0 ∷ [])
  (buf, n) ← encode_addr_port buf (out + 3) is_v6 addr port
  some (buf, 3 + n)

pub encode_reply : List ℕ → ℕ → ℕ → Bool → List ℕ → List ℕ → Option (List ℕ × ℕ)
encode_reply buf out rep is_v6 addr port = do
  buf ← write_bytes buf out (0x05 ∷ rep ∷ 0x00 ∷ [])
  (buf, n) ← encode_addr_port buf (out + 3) is_v6 addr port
  some (buf, 3 + n)

-- `(len_field[0] << 8) | len_field[1]`, and the bounds.
pub udp_tcp_frame_len : ℕ → ℕ → ℕ → Option ℕ
udp_tcp_frame_len b0 b1 max_len =
    let dlen = bit_or (b0 * 2 ^ 8) b1 in if ltb dlen 4 || ltb max_len dlen then none else some dlen

unfoldable pub request_addr_len : ℕ → ℕ → Option ℕ
request_addr_len atyp first_byte =
    if atyp == atyp_ipv4
    then some 4
    else if atyp == atyp_ipv6
    then some 16
    else if atyp == atyp_domain
    then (if leb 1 first_byte then some first_byte else none)
    else none

pub addr_normalize : List ℕ → Bool → Option (List ℕ)
addr_normalize src is_v6 =
    let out16 = replicate 16 0 in
    if not is_v6
    then (do
      out16 ← write_bytes out16 10 (0xff ∷ 0xff ∷ [])
      a ← read_bytes src 0 4
      write_bytes out16 12 a)
    else (do a ← read_bytes src 0 16; write_bytes out16 0 a)
