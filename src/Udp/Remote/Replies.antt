-- ===== src/Udp/Remote/Replies.antt =====
-- A session of command 3: what is sent to the client for the datagrams that are received.
use g_proxy_pro.Base.{
  ℕ, ◌+◌, ◌≡◌, Bool, Option, none, some, List, [], ◌∷◌, ◌++◌, ◌==◌, if◌then◌else◌, length,
}
use g_proxy_pro.Proto.Encode.{udp_header}
use g_proxy_pro.Sockaddr.{Sockaddr}
use g_proxy_pro.Udp.{UdpConn}
use g_proxy_pro.Udp.Frames.{buffer_size}
use g_proxy_pro.Dns.Relay.{Datagram}
use g_proxy_pro.Udp.Remote.{Arrival, received, Remote}
use g_proxy_pro.Udp.Remote.Source.{source_of}

-- The header with the source, and the payload.
abbrev relayed : Bool × List ℕ → List ℕ → List ℕ → List ℕ
relayed (v6, addr) port bytes = udp_header v6 addr port ++ bytes

abbrev pub reply_of : ℕ → Option Sockaddr → Arrival → List Datagram
reply_of fd none d = []
reply_of fd (some client) d =
    if length (received 22 d) == 0
    then []
    else record {
      fd = fd;
      payload = relayed (source_of d.src.is_v6 d.src.addr) d.src.port (received 22 d);
      dst = client;
    }
      ∷ []

abbrev pub replies_of : ℕ → Option Sockaddr → List Arrival → List Datagram
replies_of fd client [] = []
replies_of fd client (d ∷ ds) = reply_of fd client d ++ replies_of fd client ds

abbrev pub bytes_of : List Arrival → ℕ
bytes_of [] = 0
bytes_of (d ∷ ds) = length (received 22 d) + bytes_of ds

pub record InRoom (u : UdpConn) : Type 0 where
  pub buf : List ℕ
  pub there : u.in_buf ≡ some buf
  pub full : length buf ≡ buffer_size

module _ {K : Type 0} (fd : ℕ) where
  record Replied (d : Arrival) (s : Remote K) (client : Option Sockaddr) (r : Option (Remote K))
      : Type 0 where
    pub next : Remote K
    pub run : r ≡ some next
    pub replies : next.replies ≡ s.replies ++ reply_of fd client d
    pub rx : next.rx_bytes ≡ s.rx_bytes + length (received 22 d)
    pub room : InRoom next.conn
    pub client_src : next.conn.client_src ≡ s.conn.client_src
