-- ===== src/Sockaddr.antt =====
-- The socket addresses of app/src/main/cpp/simple-socks5.c: how a parsed header becomes one, and when
-- two have the same IP.
pub mod SameIp
pub mod Literal
pub mod Build
mod Tests
use g_proxy_pro.Base.{
  ℕ, Bool, true, false, Option, none, some, List, [], ◌∷◌, ◌==◌, if◌then◌else◌, ◌>>=◌, length,
  bytes_eq, read_bytes,
}
use g_proxy_pro.Proto.{atyp_ipv4, atyp_ipv6, addr_normalize}

-- `struct sockaddr_storage`: the family (`AF_INET6` or `AF_INET`), the address and the port, both in
-- network order.
pub record Sockaddr : Type 0 where
  pub is_v6 : Bool
  pub addr : List ℕ
  pub port : List ℕ

-- The outer option is a read outside `addr` or `port`, the inner one the C result -1.
pub build_sockaddr : ℕ → List ℕ → List ℕ → Option (Option Sockaddr)
build_sockaddr atyp addr port =
    if atyp == atyp_ipv4
    then (do
      a ← read_bytes addr 0 4
      p ← read_bytes port 0 2
      some (some (record { is_v6 = false; addr = a; port = p })))
    else if atyp == atyp_ipv6
    then (do
      a ← read_bytes addr 0 16
      p ← read_bytes port 0 2
      some (some (record { is_v6 = true; addr = a; port = p })))
    else some none

pub same_ip : Sockaddr → Sockaddr → Option Bool
same_ip a b = do
  na ← addr_normalize a.addr a.is_v6
  nb ← addr_normalize b.addr b.is_v6
  some (bytes_eq na nb)

-- What `inet_pton` answers for a text: the address of a family, or that it is none.
pub record Pton : Type 0 where
  pub v6 : List ℕ → Option (List ℕ)
  pub v4 : List ℕ → Option (List ℕ)

-- An IP literal and a port as an address; the literal is tried as IPv6 first.
unfoldable pub sockaddr_from_ip_port : Pton → List ℕ → List ℕ → Option (Option Sockaddr)
sockaddr_from_ip_port pton [] port = some none
sockaddr_from_ip_port pton (c ∷ ip) port = elim (pton.v6 (c ∷ ip)) [
  | some a6 ↦ (do
    p ← read_bytes port 0 2
    some (some (record { is_v6 = true; addr = a6; port = p })))
  | none ↦ elim (pton.v4 (c ∷ ip)) [
    | some a4 ↦ (do
      p ← read_bytes port 0 2
      some (some (record { is_v6 = false; addr = a4; port = p })))
    | none ↦ some none
  ]
]
