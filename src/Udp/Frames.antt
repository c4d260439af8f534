-- ===== src/Udp/Frames.antt =====
-- Frames that come in over TCP, `udp_client_data_event` of app/src/main/cpp/simple-socks5.c: each is two
-- bytes of length and a datagram, and `recv` cuts the stream anywhere. Beside the session the state keeps
-- what has been received and the frames that were complete, for the theorems to speak of.
-- What is done with a datagram is a parameter, `route`; `udp_route_frame` is put in at the end.
pub mod Held
pub mod Pieces
pub mod Whole
pub mod Routed
mod Tests
use g_proxy_pro.Base.{
  ℕ, zero, suc, ◌+◌, ◌-◌, ◌<◌, ◌≡◌, Bool, true, false, not, ◌&&◌, Option, none, some, List, [], ◌∷◌,
  ◌++◌, ltb, ◌==◌, if◌then◌else◌, ◌>>=◌, length, take, drop, get_elem?, read_bytes, write_bytes,
}
use g_proxy_pro.Proto.{Parsed, udp_parse, udp_tcp_frame_len}
use g_proxy_pro.Tcp.{Sys, RecvResult}
use g_proxy_pro.Udp.{CloseKind, UdpConn}
use g_proxy_pro.Udp.Session.{fail, flush_out}

abbrev pub buffer_size : ℕ
buffer_size = 65536

-- `recv(fd, buf, n, 0)`: it gives `n` bytes at most, and each time it gives some, fewer are left before
-- it would block.
pub record Stream (K : Type 0) : Type 0 where
  pub recv : K → ℕ → ℕ → RecvResult × K
  pub left : K → ℕ
  pub recv_room :
      (k : K) (fd n b : ℕ) (bs : List ℕ) → (recv k fd n).0 ≡ RecvResult.got b bs → length bs < n
  pub recv_left :
      (k : K) (fd n b : ℕ) (bs : List ℕ)
      → (recv k fd n).0 ≡ RecvResult.got b bs
      → left (recv k fd n).1 < left k

pub record Frame : Type 0 where
  pub b0 : ℕ
  pub b1 : ℕ
  pub body : List ℕ

pub record Input (K D : Type 0) : Type 0 where
  pub kernel : K
  pub conn : UdpConn
  pub routed : D
  pub received : List ℕ
  pub frames : List Frame

-- The loop goes on, or the function returns 0 (true) or -1.
pub data Next (K D : Type 0) : Type 0 where
  more : Input K D → Next K D
  stop : Bool → Input K D → Next K D

-- What becomes of a datagram: its type, what stands from its address on, its port and its payload.
abbrev pub Route : Type 0 → Type 0
Route D = ℕ → List ℕ → List ℕ → List ℕ → D → Option D

module _ {K D : Type 0} (str : Stream K) (route : Route D) (now : ℕ) where
  abbrev failed : CloseKind → Input K D → Next K D
  failed kind s = stop false (record s { conn = (fail kind s.conn).1 })

  -- With both bytes of the length there.
  pub begin_body : Input K D → Option (Next K D)
  begin_body s = do
    b0 ← get_elem? s.conn.len_bytes 0
    b1 ← get_elem? s.conn.len_bytes 1
    some (elim (udp_tcp_frame_len b0 b1 buffer_size) [
      | none ↦ failed CloseKind.close_proto s
      | some dlen ↦ more (record s { conn = record s.conn { frame_expect = dlen; frame_got = 0 } })
    ])

  -- `none` is a write outside a buffer, or a read of one that is not there.
  pub got_len : Input K D → RecvResult → K → Option (Next K D)
  got_len s (RecvResult.got b bs) k = do
    bytes ← write_bytes s.conn.len_bytes s.conn.len_got (b ∷ bs)
    let n = s.conn.len_got + suc (length bs)
    let s1 : Input K D = record s {
      kernel = k;
      conn = record s.conn { len_bytes = bytes; len_got = n };
      received = s.received ++ b ∷ bs;
    }
    if ltb n 2 then some (more s1) else begin_body s1
  got_len s RecvResult.eof k = some (failed CloseKind.close_peer (record s { kernel = k }))
  got_len s RecvResult.recv_again k = some (stop true (record s { kernel = k }))
  got_len s RecvResult.recv_failed k = some (failed CloseKind.close_io (record s { kernel = k }))

  pub got_body : Input K D → RecvResult → K → Option (Next K D)
  got_body s (RecvResult.got b bs) k = do
    buf ← s.conn.in_buf
    buf ← write_bytes buf s.conn.frame_got (b ∷ bs)
    some (
        more (record s {
          kernel = k;
          conn = record s.conn {
            in_buf = some buf;
            frame_got = s.conn.frame_got + suc (length bs);
          };
          received = s.received ++ b ∷ bs;
        }))
  got_body s RecvResult.eof k = some (failed CloseKind.close_peer (record s { kernel = k }))
  got_body s RecvResult.recv_again k = some (stop true (record s { kernel = k }))
  got_body s RecvResult.recv_failed k = some (failed CloseKind.close_io (record s { kernel = k }))

  -- A datagram is passed on if its header is accepted and a payload follows.
  pub deliver : List ℕ → ℕ → Option Parsed → D → Option D
  deliver buf len none d = some d
  deliver buf len (some p) d =
      if ltb p.header_len len
      then (do
        payload ← read_bytes buf p.header_len (len - p.header_len)
        route p.atyp (drop p.addr buf) p.port payload d)
      else some d

  -- The datagram is the first `frame_expect` bytes of the buffer.
  pub finish : Input K D → Option (Next K D)
  finish s = do
    buf ← s.conn.in_buf
    b0 ← get_elem? s.conn.len_bytes 0
    b1 ← get_elem? s.conn.len_bytes 1
    let body = take s.conn.frame_expect buf
    p ← udp_parse body (length body)
    routed ← deliver body (length body) p s.routed
    some (
        more (record s {
          conn = record s.conn { len_got = 0; frame_expect = 0; frame_got = 0; last_active = now };
          routed = routed;
          frames = s.frames ++ record { b0 = b0; b1 = b1; body = body } ∷ [];
        }))

  -- A closed descriptor is an error of `recv`.
  pub recv_from : K → Option ℕ → ℕ → RecvResult × K
  recv_from k none n = (RecvResult.recv_failed, k)
  recv_from k (some fd) n = str.recv k fd n

  -- One round of one of the three loops: a piece of the length, a piece of the datagram, or its end.
  pub step : Input K D → Option (Next K D)
  step s =
      if ltb s.conn.len_got 2
      then (let (r, k) = recv_from s.kernel s.conn.client_fd (2 - s.conn.len_got) in got_len s r k)
      else if ltb s.conn.frame_got s.conn.frame_expect
      then (let (r, k) =
            recv_from s.kernel s.conn.client_fd (s.conn.frame_expect - s.conn.frame_got) in
          got_body s r k)
      else finish s

  go_on : Next K D → (Input K D → Option (Next K D)) → Option (Next K D)
  go_on (more s) f = f s
  go_on (stop ok s) f = some (stop ok s)

  -- `more` as the result means that the fuel ran out.
  pub loop : ℕ → Input K D → Option (Next K D)
  loop zero s = some (more s)
  loop (suc fuel) s = step s >>= λ r. go_on r (loop fuel)

  -- What is still to go out to the client goes out first; -1 as the descriptor is an error of `send`.
  flush_first : Sys K → Input K D → Option (Bool × Input K D)
  flush_first sys s =
      if ltb 0 s.conn.out_len
      then (elim s.conn.client_fd [
        | none ↦ some (false, record s { conn = (fail CloseKind.close_io s.conn).1 })
        | some fd ↦ do
          out ← s.conn.out_buf
          let (k, ok, u) = flush_out sys s.kernel fd out s.conn
          some (ok, record s { kernel = k; conn = u })
      ])
      else some (true, s)

  pub client_data_event : Sys K → Bool → ℕ → Input K D → Option (Next K D)
  client_data_event sys readable fuel s = do
    (ok, s1) ← flush_first sys s
    if not ok then some (stop false s1) else if readable then loop fuel s1 else some (stop true s1)
