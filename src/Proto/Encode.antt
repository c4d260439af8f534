-- ===== src/Proto/Encode.antt =====
-- What the encoders write: a SOCKS5 reply and the header of a relayed datagram.
use g_proxy_pro.Base.{
  ℕ, ◌+◌, ◌≡◌, refl, ap, ◌∙◌, Bool, true, false, Option, some, List, [], ◌∷◌, ◌++◌, arith, ◌>>=◌,
  >>=_assoc, length, write_bytes, write_bytes_twice, write_bytes_thrice, write_bytes-append,
  length-append, read_bytes_all,
}
use g_proxy_pro.Proto.{atyp_ipv4, atyp_ipv6, encode_addr_port, udp_encode, encode_reply}

abbrev pub addr_size : Bool → ℕ
addr_size false = 4
addr_size true = 16

abbrev pub atyp_of : Bool → ℕ
atyp_of false = atyp_ipv4
atyp_of true = atyp_ipv6

-- RFC 1928: `[ATYP][ADDR][PORT]`.
abbrev pub addr_port : Bool → List ℕ → List ℕ → List ℕ
addr_port is_v6 addr port = (atyp_of is_v6 ∷ []) ++ (addr ++ port)

encode_addr_port_lem :
    (is_v6 : Bool) (addr port : List ℕ)
    → length addr ≡ addr_size is_v6
    → length port ≡ 2
    → (buf : List ℕ) (p : ℕ)
    → encode_addr_port buf p is_v6 addr port
      ≡ (write_bytes buf p (addr_port is_v6 addr port) >>= λ r. some (r, 3 + addr_size is_v6))
unfolding encode_addr_port
encode_addr_port_lem false addr port full two buf p =
    simp (read_bytes_all addr 4 full, read_bytes_all port 2 two)
      (write_bytes_thrice buf (atyp_ipv4 ∷ []) addr port p (p + 1) (p + 5) (λ r. some (r, 7)) refl
        (omega arith))
encode_addr_port_lem true addr port full two buf p =
    simp (read_bytes_all addr 16 full, read_bytes_all port 2 two)
      (write_bytes_thrice buf (atyp_ipv6 ∷ []) addr port p (p + 1) (p + 17) (λ r. some (r, 19)) refl
        (omega arith))

abbrev done : List ℕ → ℕ → Option (List ℕ × ℕ)
done r n = some (r, n)

-- Three bytes and an address behind them are one write.
header_write :
    (is_v6 : Bool) (addr port lead : List ℕ)
    → length addr ≡ addr_size is_v6
    → length port ≡ 2
    → length lead ≡ 3
    → (buf : List ℕ) (out : ℕ)
    → (write_bytes buf out lead >>= λ b.
        encode_addr_port b (out + 3) is_v6 addr port >>= λ r. done r.0 (3 + r.1))
      ≡ (write_bytes buf out (lead ++ addr_port is_v6 addr port) >>= λ r.
          done r (6 + addr_size is_v6))
header_write is_v6 addr port lead full two three buf out =
    simp (encode_addr_port_lem is_v6 addr port full two, >>=_assoc)
      (write_bytes_twice buf lead (addr_port is_v6 addr port) out (out + 3)
          (λ r. done r (3 + (3 + addr_size is_v6))) (omega arith)
        ∙ ap (λ n. write_bytes buf out (lead ++ addr_port is_v6 addr port) >>= λ r. done r n)
            (omega arith))

-- The header of a relayed datagram, RFC 1928 §7.
abbrev pub udp_header : Bool → List ℕ → List ℕ → List ℕ
udp_header is_v6 addr port = (0 ∷ 0 ∷ 0 ∷ []) ++ addr_port is_v6 addr port

-- A reply, RFC 1928 §6.
abbrev pub reply : ℕ → Bool → List ℕ → List ℕ → List ℕ
reply rep is_v6 addr port = (5 ∷ rep ∷ 0 ∷ []) ++ addr_port is_v6 addr port

-- The encoder's header is one write.
pub udp_encode_lem :
    (is_v6 : Bool) (addr port : List ℕ)
    → length addr ≡ addr_size is_v6
    → length port ≡ 2
    → (buf : List ℕ) (out : ℕ)
    → udp_encode buf out is_v6 addr port
      ≡ (write_bytes buf out (udp_header is_v6 addr port) >>= λ r. done r (6 + addr_size is_v6))
unfolding udp_encode
udp_encode_lem is_v6 addr port full two =
    header_write is_v6 addr port (0 ∷ 0 ∷ 0 ∷ []) full two refl

encode_reply_lem :
    (rep : ℕ) (is_v6 : Bool) (addr port : List ℕ)
    → length addr ≡ addr_size is_v6
    → length port ≡ 2
    → (buf : List ℕ) (out : ℕ)
    → encode_reply buf out rep is_v6 addr port
      ≡ (write_bytes buf out (reply rep is_v6 addr port) >>= λ r. done r (6 + addr_size is_v6))
unfolding encode_reply
encode_reply_lem rep is_v6 addr port full two =
    header_write is_v6 addr port (5 ∷ rep ∷ 0 ∷ []) full two refl

length-addr_port :
    (is_v6 : Bool) (addr port : List ℕ)
    → length addr ≡ addr_size is_v6
    → length port ≡ 2
    → length (addr_port is_v6 addr port) ≡ 3 + addr_size is_v6
length-addr_port is_v6 addr port full two = omega (arith, length-append addr port)

-- With room for the header in the buffer, the two encoders stay inside it, return the header's size,
-- which is 10 for an IPv4 and 22 for an IPv6 address, write exactly the bytes of RFC 1928 there, and
-- leave the bytes in front of and behind them alone.
pub encode_lem :
    (rep : ℕ) (is_v6 : Bool) (addr port front old back : List ℕ)
    → length addr ≡ addr_size is_v6
    → length port ≡ 2
    → length old ≡ 6 + addr_size is_v6
    → let buf = front ++ (old ++ back) in
      (udp_encode buf (length front) is_v6 addr port
        ≡ some (front ++ (udp_header is_v6 addr port ++ back), 6 + addr_size is_v6))
      × (encode_reply buf (length front) rep is_v6 addr port
          ≡ some (front ++ (reply rep is_v6 addr port ++ back), 6 + addr_size is_v6))
encode_lem rep is_v6 addr port front old back full two room = (
  udp_encode_lem is_v6 addr port full two _ _
      ∙ rw (written (udp_header is_v6 addr port) (omega (arith, size))),
  encode_reply_lem rep is_v6 addr port full two _ _
      ∙ rw (written (reply rep is_v6 addr port) (omega (arith, size))),
)
  where
    size : length (addr_port is_v6 addr port) ≡ 3 + addr_size is_v6
    size = length-addr_port is_v6 addr port full two

    written :
        (bs : List ℕ)
        → length bs ≡ 6 + addr_size is_v6
        → write_bytes (front ++ (old ++ back)) (length front) bs ≡ some (front ++ (bs ++ back))
    written bs e = write_bytes-append front old bs back (length front) refl (omega arith)
