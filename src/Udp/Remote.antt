-- ===== src/Udp/Remote.antt =====
-- Datagrams from the 5G side, `udp_remote_event` of app/src/main/cpp/simple-socks5.c: each goes to the
-- client behind a header with its source, in a datagram of its own (command 3) or as a frame of the TCP
-- connection (command 4). What `recvfrom` gives until it would block or fails is a list. Beside the
-- session the state keeps what the kernel has taken for the client, for the theorems to speak of.
pub mod Source
pub mod Frame
pub mod Flush
pub mod Stream
pub mod Replies
mod Tests
use g_proxy_pro.Base.{
  ℕ, zero, suc, ◌+◌, ◌-◌, ◌/◌, ◌%◌, ◌^◌, Bool, true, false, not, Option, none, some, List, [], ◌∷◌,
  ◌++◌, ltb, ◌==◌, if◌then◌else◌, ◌>>=◌, length, take, drop, bytes_eq, read_bytes, write_bytes,
}
use g_proxy_pro.Proto.{udp_encode}
use g_proxy_pro.Sockaddr.{Sockaddr}
use g_proxy_pro.Tcp.{Sys, send_loop}
use g_proxy_pro.Udp.{CloseKind, UdpConn}
use g_proxy_pro.Udp.Session.{fail, flush_out}
use g_proxy_pro.Udp.Frames.{buffer_size}
use g_proxy_pro.Dns.Relay.{Datagram}

pub record Arrival : Type 0 where
  pub bytes : List ℕ
  pub src : Sockaddr

-- `recvfrom` cuts off what goes beyond the buffer.
abbrev pub received : ℕ → Arrival → List ℕ
received off d = take (buffer_size - off) d.bytes

-- `::ffff:0:0/96`
abbrev pub v4_mapped : List ℕ
v4_mapped = 0 ∷ 0 ∷ 0 ∷ 0 ∷ 0 ∷ 0 ∷ 0 ∷ 0 ∷ 0 ∷ 0 ∷ 0xff ∷ 0xff ∷ []

-- Whether the header's address is IPv6, and its bytes.
v6_source : Bool → List ℕ → Option (Bool × List ℕ)
v6_source true addr = read_bytes addr 12 4 >>= λ x. some (false, x)
v6_source false addr = read_bytes addr 0 16 >>= λ x. some (true, x)

pub header_addr : Bool → List ℕ → Option (Bool × List ℕ)
header_addr false addr = read_bytes addr 0 4 >>= λ x. some (false, x)
header_addr true addr = read_bytes addr 0 12 >>= λ lead. v6_source (bytes_eq lead v4_mapped) addr

-- The header ends where the payload begins, at `off`. Its size is the result beside the buffer.
with_header : List ℕ → ℕ → Sockaddr → Option (List ℕ × ℕ)
with_header buf off src = do
  (is_v6, addr) ← header_addr src.is_v6 src.addr
  udp_encode buf (off - (if is_v6 then 22 else 10)) is_v6 addr src.port

-- `memmove` to the start of the buffer.
to_front : List ℕ → ℕ → ℕ → Option (List ℕ × ℕ)
to_front buf start len =
    if start == 0
    then some (buf, len)
    else (do moved ← read_bytes buf start len; buf ← write_bytes buf 0 moved; some (buf, len))

-- The frame for the TCP connection, at the start of `out_buf`, and its size.
pub put_frame : List ℕ → Arrival → Option (List ℕ × ℕ)
put_frame out d = do
  out ← write_bytes out 24 (received 24 d)
  (out, hlen) ← with_header out 24 d.src
  let dlen = length (received 24 d) + hlen
  out ← write_bytes out (24 - hlen - 2) (dlen / 2 ^ 8 % 2 ^ 8 ∷ dlen % 2 ^ 8 ∷ [])
  to_front out (24 - hlen - 2) (dlen + 2)

-- The datagram for the client: `in_buf` after it, and the bytes that are sent.
pub put_reply : List ℕ → Arrival → Option (List ℕ × List ℕ)
put_reply buf d = do
  buf ← write_bytes buf 22 (received 22 d)
  (buf, hlen) ← with_header buf 22 d.src
  bytes ← read_bytes buf (22 - hlen) (length (received 22 d) + hlen)
  some (buf, bytes)

-- `rx_bytes` is the worker's `g_udp_rx_bytes`, `replies` the calls of `sendto`, `sent` what the kernel
-- has taken for the TCP connection.
pub record Remote (K : Type 0) : Type 0 where
  pub kernel : K
  pub conn : UdpConn
  pub rx_bytes : ℕ
  pub sent : List ℕ
  pub replies : List Datagram

abbrev pub counted : {K : Type 0} → List ℕ → Remote K → Remote K
counted bytes s = record s { rx_bytes = s.rx_bytes + length bytes }

-- `recvfrom` has nothing more: it would block, or it failed.
abbrev pub ended : {K : Type 0} → Bool → Remote K → Bool × Remote K
ended true s = (true, s)
ended false s = (false, record s { conn = (fail CloseKind.close_io s.conn).1 })

-- The reply has been built.
send_reply : {K : Type 0} → ℕ → Sockaddr → Arrival → Remote K → List ℕ × List ℕ → Option (Remote K)
send_reply fd client d s (buf, bytes) = some (record (counted (received 22 d) s) {
  conn = record s.conn { in_buf = some buf };
  replies = s.replies ++ record { fd = fd; payload = bytes; dst = client } ∷ [];
})

-- Nothing is sent, but the payload is in the buffer.
kept_payload : {K : Type 0} → Arrival → Remote K → List ℕ → Option (Remote K)
kept_payload d s buf =
    some (record (counted (received 22 d) s) { conn = record s.conn { in_buf = some buf } })

-- Without an address of the client the datagram is dropped.
replied_to : {K : Type 0} → ℕ → Option Sockaddr → Arrival → Remote K → Option (Remote K)
replied_to fd none d s =
    s.conn.in_buf >>= λ buf. write_bytes buf 22 (received 22 d) >>= λ r. kept_payload d s r
replied_to fd (some client) d s =
    s.conn.in_buf >>= λ buf. put_reply buf d >>= λ r. send_reply fd client d s r

-- Command 3.
pub to_local : {K : Type 0} → ℕ → Arrival → Remote K → Option (Remote K)
to_local fd d s =
    if length (received 22 d) == 0 then some s else replied_to fd s.conn.client_src d s

pub local_loop : {K : Type 0} → ℕ → Bool → List Arrival → Remote K → Option (Bool × Remote K)
local_loop fd blocks [] s = some (ended blocks s)
local_loop fd blocks (d ∷ ds) s = to_local fd d s >>= λ s1. local_loop fd blocks ds s1

-- Command 4.
module _ {K : Type 0} (sys : Sys K) where
  -- A descriptor that is -1 is an error of `send`.
  flush_to : Option ℕ → List ℕ → Remote K → Bool × Remote K
  flush_to none out s = (false, record s { conn = (fail CloseKind.close_io s.conn).1 })
  flush_to (some fd) out s =
      let (k, ok, u) = flush_out sys s.kernel fd out s.conn in
      let r = send_loop sys s.kernel fd (drop s.conn.out_off (take s.conn.out_len out)) 0 in
      (ok, record s { kernel = k; conn = u; sent = s.sent ++ r.taken })

  -- The frame has been built.
  start_frame : Arrival → Remote K → List ℕ × ℕ → Option (Bool × Remote K)
  start_frame d s (out, len) =
      let s1 : Remote K = record (counted (received 24 d) s) {
        conn = record s.conn { out_buf = some out; out_len = len; out_off = 0 };
      } in
      some (flush_to s.conn.client_fd out s1)

  pub to_client : Arrival → Remote K → Option (Bool × Remote K)
  to_client d s =
      if length (received 24 d) == 0
      then some (true, s)
      else (s.conn.out_buf >>= λ out. put_frame out d >>= λ r. start_frame d s r)

  -- Whether the session goes on, and what has not been received yet.
  abbrev pub Ran : Type 0
  Ran = Bool × Remote K × List Arrival

  go_on : Bool → Remote K → List Arrival → (Remote K → Option Ran) → Option Ran
  go_on true s ds f = f s
  go_on false s ds f = some (false, s, ds)

  last : Bool × Remote K → Ran
  last (ok, s) = (ok, s, [])

  pub client_loop : Bool → List Arrival → Remote K → Option Ran
  client_loop blocks [] s =
      some (if ltb 0 s.conn.out_len then (true, s, []) else last (ended blocks s))
  client_loop blocks (d ∷ ds) s =
      if ltb 0 s.conn.out_len
      then some (true, s, d ∷ ds)
      else (to_client d s >>= λ r. go_on r.0 r.1 ds (client_loop blocks ds))

  -- `local_udp_fd >= 0` tells command 3.
  pub remote_event : Bool → List Arrival → Remote K → Option Ran
  remote_event blocks ds s = elim s.conn.local_udp_fd [
    | some fd ↦ local_loop fd blocks ds s >>= λ r. some (last r)
    | none ↦ client_loop blocks ds s
  ]
