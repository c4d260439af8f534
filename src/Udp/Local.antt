-- ===== src/Udp/Local.antt =====
-- Datagrams from the client in a session of command 3, `udp_local_event` of
-- app/src/main/cpp/simple-socks5.c: only those of the host that opened the session are let through.
-- What `recvfrom` gives until it would block or fails is a list. What is done with a datagram is a
-- parameter, `route`; `udp_route_frame` is put in at the end. `peer` is the session's `peer_ss`.
pub mod Trusted
mod Tests
use g_proxy_pro.Base.{
  ℕ, ◌-◌, Bool, true, false, Option, none, some, List, [], ◌∷◌, ltb, leb, if◌then◌else◌, ◌>>=◌,
  length, drop, read_bytes, write_bytes,
}
use g_proxy_pro.Proto.{Parsed, udp_parse}
use g_proxy_pro.Sockaddr.{Sockaddr, same_ip}
use g_proxy_pro.Udp.{CloseKind, UdpConn}
use g_proxy_pro.Udp.Session.{fail}
use g_proxy_pro.Udp.Frames.{Route}
use g_proxy_pro.Udp.Remote.{Arrival, received}

pub record Local (D : Type 0) : Type 0 where
  pub conn : UdpConn
  pub routed : D

module _ {D : Type 0} (route : Route D) (peer : Sockaddr) where
  -- A payload behind the header is passed on.
  pass_on : List ℕ → ℕ → Parsed → D → Option D
  pass_on buf len p d =
      if ltb p.header_len len
      then (read_bytes buf p.header_len (len - p.header_len) >>= λ payload.
          route p.atyp (drop p.addr buf) p.port payload d)
      else some d

  -- With the answer of `same_ip`.
  admit : Bool → Sockaddr → List ℕ → ℕ → Parsed → Local D → Option (Local D)
  admit false src buf len p s = some s
  admit true src buf len p s = pass_on buf len p s.routed >>= λ routed.
      some (record s { conn = record s.conn { client_src = some src }; routed = routed })

  from_client : Sockaddr → List ℕ → ℕ → Option Parsed → Local D → Option (Local D)
  from_client src buf len none s = some s
  from_client src buf len (some p) s = same_ip src peer >>= λ same. admit same src buf len p s

  abbrev pub with_buf : List ℕ → Local D → Local D
  with_buf buf s = record s { conn = record s.conn { in_buf = some buf } }

  -- The datagram is in the buffer.
  arrived : Arrival → Local D → List ℕ → Option (Local D)
  arrived d s buf =
      if leb (length (received 0 d)) 3
      then some (with_buf buf s)
      else (udp_parse buf (length (received 0 d)) >>= λ p.
          from_client d.src buf (length (received 0 d)) p (with_buf buf s))

  pub receive : Arrival → Local D → Option (Local D)
  receive d s = s.conn.in_buf >>= λ buf. write_bytes buf 0 (received 0 d) >>= λ r. arrived d s r

  abbrev pub over : Bool → Local D → Bool × Local D
  over true s = (true, s)
  over false s = (false, record s { conn = (fail CloseKind.close_io s.conn).1 })

  pub local_event : Bool → List Arrival → Local D → Option (Bool × Local D)
  local_event blocks [] s = some (over blocks s)
  local_event blocks (d ∷ ds) s = receive d s >>= λ s1. local_event blocks ds s1
