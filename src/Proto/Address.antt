-- ===== src/Proto/Address.antt =====
-- Addresses: their lengths in a request, the frame length of UDP-in-TCP, and the normal form by which
-- the source of a datagram is compared.
use mathlib.Core.List.{append-nil}
use g_proxy_pro.Base.{
  ◌≤◌, ℕ, ◌+◌, ◌*◌, ◌/◌, ◌%◌, ◌^◌, ◌<◌, ◌≡◌, refl, ap, ap₂, ◌∙◌, Bool, true, false, ◌&&◌, none,
  some, List, [], ◌∷◌, ◌++◌, arith, leb, if◌then◌else◌, length, bit_and, bit_or, write_bytes,
  read_bytes_all, write_bytes-append, replicate,
}
use g_proxy_pro.Base.Bits.{
  bit_or_split, bit_and_split, bit_and_mask, zero-bit_or, bit_or-zero, bit_and-zero,
}
use g_proxy_pro.Proto.{udp_tcp_frame_len, addr_normalize}
use g_proxy_pro.Proto.Encode.{addr_size}

pub shift_or_byte : (b0 b1 : ℕ) → b1 < 2 ^ 8 → bit_or (b0 * 2 ^ 8) b1 ≡ b0 * 2 ^ 8 + b1
shift_or_byte b0 b1 h =
    ap₂ bit_or e0 e1
    ∙ bit_or_split 8 b0 0 0 b1 (omega arith) h
    ∙ rw (bit_or-zero b0, zero-bit_or b1) refl
  where
    e0 : b0 * 2 ^ 8 ≡ b0 * 2 ^ 8 + 0
    e0 = omega arith

    e1 : b1 ≡ 0 * 2 ^ 8 + b1
    e1 = omega arith

low_byte : (n : ℕ) → bit_and n 0xff ≡ n % 2 ^ 8
low_byte n =
    ap (λ m. bit_and m 0xff) e
    ∙ bit_and_split 8 (n / 2 ^ 8) 0 (n % 2 ^ 8) 0xff (omega arith) (omega arith)
    ∙ omega (arith, bit_and-zero (n / 2 ^ 8), bit_and_mask 8 (n % 2 ^ 8) (omega arith))
  where
    e : n ≡ n / 2 ^ 8 * 2 ^ 8 + n % 2 ^ 8
    e = omega arith

-- The length field that `udp_remote_event` writes (`dlen >> 8` and `dlen & 0xFF`) is read back, for
-- every length that two bytes hold; the reader refuses exactly those below 4 or above its limit.
pub udp_tcp_frame_len_iff :
    (dlen max_len : ℕ)
    → dlen < 2 ^ 16
    → udp_tcp_frame_len (dlen / 2 ^ 8) (bit_and dlen 0xff) max_len
      ≡ (if leb 4 dlen && leb dlen max_len then some dlen else none)
unfolding udp_tcp_frame_len
udp_tcp_frame_len_iff dlen max_len h =
    rw (low_byte dlen, shift_or_byte (dlen / 2 ^ 8) (dlen % 2 ^ 8) (omega arith)) (ground arith)

-- The normal form is 16 bytes: an IPv6 address as it is, an IPv4 address behind the prefix of a mapped
-- one, ::ffff:0:0/96. No read or write leaves its buffer.
pub addr_normalize_lem :
    (src : List ℕ) (is_v6 : Bool)
    → length src ≡ addr_size is_v6
    → addr_normalize src is_v6
      ≡ some (if is_v6 then src else replicate 10 0 ++ (0xff ∷ 0xff ∷ []) ++ src)
unfolding addr_normalize write_bytes
addr_normalize_lem src false full = rw (read_bytes_all src 4 full) (
    write_bytes-append (replicate 10 0 ++ (0xff ∷ 0xff ∷ [])) (replicate 4 0) src [] 12 refl
      (omega arith)
    ∙ rw append-nil refl)
addr_normalize_lem src true full =
    rw (read_bytes_all src 16 full)
      (write_bytes-append [] (replicate 16 0) src [] 0 refl (omega arith) ∙ rw append-nil refl)

-- A length that is accepted has room for a header, and is within the bound.
pub udp_tcp_frame_len_range :
    (b0 b1 max_len d : ℕ) → udp_tcp_frame_len b0 b1 max_len ≡ some d → (4 ≤ d) × (d ≤ max_len)
unfolding udp_tcp_frame_len
udp_tcp_frame_len_range b0 b1 max_len d h = ground arith
