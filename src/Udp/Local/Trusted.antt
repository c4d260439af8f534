-- ===== src/Udp/Local/Trusted.antt =====
-- Only the host that opened a session is heard, and replies go to it alone.
use g_proxy_pro.Base.{
  ℕ, ◌≤◌, ◌≡◌, ◌⊎◌, true, false, Option, none, some, List, [], ◌∷◌, length, drop,
}
use g_proxy_pro.Proto.{Parsed}
use g_proxy_pro.Proto.Parse.{IsSound}
use g_proxy_pro.Sockaddr.{Sockaddr, same_ip}
use g_proxy_pro.Sockaddr.SameIp.{IsWhole}
use g_proxy_pro.Udp.Frames.{Route}
use g_proxy_pro.Udp.Remote.{Arrival}
use g_proxy_pro.Udp.Remote.Replies.{InRoom}
use g_proxy_pro.Udp.Local.{Local}

-- The address to which replies go is that of the host that opened the session, or none yet.
abbrev pub Trusts : Sockaddr → Option Sockaddr → Type 0
Trusts peer c = (c ≡ none) ⊎ ((a : Sockaddr) × (c ≡ some a) × (same_ip a peer ≡ some true))

abbrev pub AllWhole : List Arrival → Type 0
AllWhole [] = Unit {0}
AllWhole (d ∷ ds) = IsWhole d.src × AllWhole ds

-- All come from other hosts.
abbrev pub AllForeign : Sockaddr → List Arrival → Type 0
AllForeign peer [] = Unit {0}
AllForeign peer (d ∷ ds) = (same_ip d.src peer ≡ some false) × AllForeign peer ds

module _ {D : Type 0} (route : Route D) (peer : Sockaddr) (Ok : D → Type 0)
    (route_total : (buf : List ℕ) (len : ℕ) (p : Parsed) (payload : List ℕ) (d : D)
      → len ≤ length buf
      → IsSound buf len p
      → Ok d
      → (d' : D) × (route p.atyp (drop p.addr buf) p.port payload d ≡ some d') × Ok d') where
  -- What the datagrams `Foreign` would leave as it is.
  record Heard (Foreign : Type 0) (s : Local D) (r : Option (Local D)) : Type 0 where
    pub next : Local D
    pub run : r ≡ some next
    pub room : InRoom next.conn
    pub ok : Ok next.routed
    pub trusts : Trusts peer s.conn.client_src → Trusts peer next.conn.client_src
    pub deaf : Foreign → (next.routed ≡ s.routed) × (next.conn.client_src ≡ s.conn.client_src)
