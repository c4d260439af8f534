-- ===== src/Udp/Remote/Frame.antt =====
-- What is built for one datagram: the header with its source, and for a TCP connection the size.
use g_proxy_pro.Base.{
  ℕ, zero, suc, ◌+◌, ◌-◌, ◌/◌, ◌%◌, ◌^◌, ◌≤◌, ◌≡◌, refl, sym, ap, ◌∙◌, arith, Bool, true, false,
  some, List, [], ◌∷◌, ◌++◌, ◌==◌, if◌then◌else◌, ◌>>=◌, length, length-append, take, read_bytes,
  write_bytes, write_bytes_before, write_bytes_total, read_bytes-take,
}
use mathlib.Core.Option.{some_inj}
use g_proxy_pro.Proto.Encode.{addr_size, udp_header, udp_encode_lem}
use g_proxy_pro.Sockaddr.{Sockaddr}
use g_proxy_pro.Udp.Frames.{buffer_size}
use g_proxy_pro.Udp.Remote.{Arrival, received, with_header, to_front, put_frame, put_reply}
use g_proxy_pro.Udp.Remote.Source.{Sized, Named, named}

-- A frame's datagram: the header that names the source, and the payload.
abbrev pub body : (a : Sockaddr) → Named a → List ℕ → List ℕ
body a n bytes = udp_header n.is_v6 n.addr a.port ++ bytes

length-header :
    (v6 : Bool) (addr port : List ℕ)
    → length addr ≡ addr_size v6
    → length port ≡ 2
    → length (udp_header v6 addr port) ≡ 6 + addr_size v6
length-header v6 addr port full two = omega (arith, length-append addr port)

-- A write in front of one that stands in the buffer.
pub record InFront (buf : List ℕ) (r : List ℕ) (off : ℕ) (xs ys : List ℕ) : Type 0 where
  pub next : List ℕ
  pub done : write_bytes r off xs ≡ some next
  pub both : write_bytes buf off (xs ++ ys) ≡ some next
  pub size : length next ≡ length buf
  pub back : read_bytes next off (length (xs ++ ys)) ≡ some (xs ++ ys)

in_front :
    (buf r xs ys : List ℕ) (off off' : ℕ)
    → off' ≡ off + length xs
    → off' + length ys ≤ length buf
    → write_bytes buf off' ys ≡ some r
    → InFront buf r off xs ys
in_front buf r xs ys off off' e room w =
    let (next, both, size, back) =
      write_bytes_total buf off (xs ++ ys) (omega (arith, length-append xs ys)) in
    let once = write_bytes_before buf xs ys off off' e in
    record {
      next = next;
      done = sym (ap (λ m. m >>= λ b. write_bytes b off xs) w) ∙ once ∙ both;
      both = both;
      size = size;
      back = back;
    }

header_room : (v6 : Bool) → (if v6 then 22 else 10) ≡ 6 + addr_size v6
header_room true = refl
header_room false = refl

header_size : (v6 : Bool) → 6 + addr_size v6 ≤ 22
header_size true = omega arith
header_size false = omega arith

module _ (a : Sockaddr) (h : Sized a) (buf bytes r : List ℕ) (off : ℕ) (room : 22 ≤ off)
    (fits : off + length bytes ≤ length buf) (payload : write_bytes buf off bytes ≡ some r) where
  abbrev pub name : Named a
  name = named a h

  abbrev pub size : ℕ
  size = 6 + addr_size name.is_v6

  header_front : InFront buf r (off - size) (udp_header name.is_v6 name.addr a.port) bytes
  header_front =
      in_front buf r _ bytes (off - size) off
        (omega (
          arith,
          length-header name.is_v6 name.addr a.port name.full h.port,
          header_size name.is_v6,
        ))
        fits payload

  with_header_lem : with_header r off a ≡ some (header_front.next, size)
  unfolding with_header
  with_header_lem =
      rw (name.found, header_room name.is_v6)
        (udp_encode_lem name.is_v6 name.addr a.port name.full h.port r (off - size)
          ∙ rw header_front.done refl)

-- The frame of a datagram: the size in two bytes, the header, and the payload.
abbrev pub frame : (a : Sockaddr) → Named a → List ℕ → List ℕ
frame a n bytes =
    let len = length (body a n bytes) in (len / 2 ^ 8 % 2 ^ 8 ∷ len % 2 ^ 8 ∷ []) ++ body a n bytes

length-take_le : (n : ℕ) (xs : List ℕ) → length (take n xs) ≤ n
length-take_le zero xs = omega arith
length-take_le (suc n) [] = omega arith
length-take_le (suc n) (x ∷ xs) = omega (arith, length-take_le n xs)

pub length-received : (off : ℕ) (d : Arrival) → length (received off d) ≤ buffer_size - off
length-received off d = length-take_le (buffer_size - off) d.bytes

module _ (d : Arrival) (h : Sized d.src) (buf : List ℕ) (room : length buf ≡ buffer_size) where
  moved :
      (start : ℕ) (bs r r' : List ℕ)
      → read_bytes r (suc start) (length bs) ≡ some bs
      → write_bytes r 0 bs ≡ some r'
      → to_front r (suc start) (length bs) ≡ some (r', length bs)
  unfolding to_front
  moved start bs r r' e f =
      let apart : (suc start == 0) ≡ false = ground arith in rw apart (rw e (rw f refl))

  to_front_lem :
      (start : ℕ) (bs r : List ℕ)
      → length r ≡ buffer_size
      → start + length bs ≤ buffer_size
      → read_bytes r start (length bs) ≡ some bs
      → (r' : List ℕ) × (to_front r start (length bs) ≡ some (r', length bs))
        × (length r' ≡ buffer_size)
        × (take (length bs) r' ≡ bs)
  unfolding to_front
  to_front_lem zero bs r full fits there =
      (r, refl, full, some_inj.0 (sym (read_bytes-take r (length bs) (omega arith)) ∙ there))
  to_front_lem (suc start) bs r full fits there =
      let (r', e, l, back) = write_bytes_total r 0 bs (omega arith) in
      (
        r',
        moved start bs r r' there e,
        l ∙ full,
        some_inj.0 (sym (read_bytes-take r' (length bs) (omega arith)) ∙ back),
      )

  length-body :
      (bytes : List ℕ)
      → length (body d.src (named d.src h) bytes)
        ≡ length bytes + (6 + addr_size (named d.src h).is_v6)
  length-body bytes =
      let n = named d.src h in
      length-append (udp_header n.is_v6 n.addr d.src.port) bytes
      ∙ omega (arith, length-header n.is_v6 n.addr d.src.port n.full h.port)

  replied :
      (r next bytes : List ℕ) (size : ℕ)
      → write_bytes buf 22 (received 22 d) ≡ some r
      → with_header r 22 d.src ≡ some (next, size)
      → read_bytes next (22 - size) (length (received 22 d) + size) ≡ some bytes
      → put_reply buf d ≡ some (next, bytes)
  unfolding put_reply
  replied r next bytes size e1 e2 e3 = rw e1 (rw e2 (rw e3 refl))

  -- With a buffer of its size, the bytes sent to the client are the header and the payload.
  pub put_reply_lem :
      (r : List ℕ) × (put_reply buf d ≡ some (r, body d.src (named d.src h) (received 22 d)))
      × (length r ≡ buffer_size)
  put_reply_lem =
      let bytes = received 22 d in
      let fits : 22 + length bytes ≤ length buf = omega (arith, length-received 22 d, room) in
      let (r1, e1, l1, b1) = write_bytes_total buf 22 bytes fits in
      let hf = header_front d.src h buf bytes r1 22 (omega arith) fits e1 in
      let size = 6 + addr_size (named d.src h).is_v6 in
      (
        hf.next,
        replied r1 hf.next (body d.src (named d.src h) bytes) size e1
            (with_header_lem d.src h buf bytes r1 22 (omega arith) fits e1)
            (ap (λ n. read_bytes hf.next (22 - size) n) (sym (length-body bytes)) ∙ hf.back),
        hf.size ∙ room,
      )

  framed :
      (r1 r2 r3 r4 : List ℕ) (size len : ℕ)
      → write_bytes buf 24 (received 24 d) ≡ some r1
      → with_header r1 24 d.src ≡ some (r2, size)
      → len ≡ length (received 24 d) + size
      → write_bytes r2 (24 - size - 2) (len / 2 ^ 8 % 2 ^ 8 ∷ len % 2 ^ 8 ∷ []) ≡ some r3
      → to_front r3 (24 - size - 2) (suc (suc len)) ≡ some (r4, suc (suc len))
      → put_frame buf d ≡ some (r4, suc (suc len))
  unfolding put_frame
  framed r1 r2 r3 r4 size len e1 e2 el e3 e4 =
      rw e1 (rw e2 (rw (sym el) (rw e3 (rw (comm len) e4))))
    where
      comm : (n : ℕ) → n + 2 ≡ suc (suc n)
      comm n = omega arith

  -- With a buffer of its size, the frame stands at its start afterwards.
  pub put_frame_lem :
      let f = frame d.src (named d.src h) (received 24 d) in
      (r : List ℕ) × (put_frame buf d ≡ some (r, length f))
      × (length r ≡ buffer_size)
      × (take (length f) r ≡ f)
  put_frame_lem =
      let bytes = received 24 d in
      let n = named d.src h in
      let whole = body d.src n bytes in
      let lead : List ℕ = length whole / 2 ^ 8 % 2 ^ 8 ∷ length whole % 2 ^ 8 ∷ [] in
      let size = 6 + addr_size n.is_v6 in
      let small = header_size n.is_v6 in
      let wide : 22 ≤ 24 = omega arith in
      let fits : 24 + length bytes ≤ length buf = omega (arith, length-received 24 d, room) in
      let (r1, e1, l1, b1) = write_bytes_total buf 24 bytes fits in
      let hf = header_front d.src h buf bytes r1 24 wide fits e1 in
      let lf =
        in_front buf hf.next lead whole (24 - size - 2) (24 - size) (omega (arith, small))
          (omega (arith, small, fits, length-body bytes)) hf.both in
      let (r4, e4, l4, t4) =
        to_front_lem (24 - size - 2) (lead ++ whole) lf.next (lf.size ∙ room)
          (omega (arith, small, room, fits, length-body bytes)) lf.back in
      (
        r4,
        framed r1 hf.next lf.next r4 size (length whole) e1
            (with_header_lem d.src h buf bytes r1 24 wide fits e1) (length-body bytes) lf.done e4,
        l4,
        t4,
      )
