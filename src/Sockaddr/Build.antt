-- ===== src/Sockaddr/Build.antt =====
-- A header's address of fixed size always becomes a socket address.
use g_proxy_pro.Base.{
  true, false, ℕ, ◌≤◌, ◌≡◌, ◌⊎◌, inl, inr, refl, arith, some, List, length, read_bytes_total,
}
use g_proxy_pro.Proto.{atyp_ipv4, atyp_ipv6}
use g_proxy_pro.Sockaddr.{Sockaddr, build_sockaddr}

pub build_sockaddr_total :
    (atyp : ℕ) (addr port : List ℕ)
    → length port ≡ 2
    → ((atyp ≡ atyp_ipv4) × (4 ≤ length addr)) ⊎ ((atyp ≡ atyp_ipv6) × (16 ≤ length addr))
    → (a : Sockaddr) × (build_sockaddr atyp addr port ≡ some (some a))
unfolding build_sockaddr
build_sockaddr_total atyp addr port two (inl (e, h)) =
    let (a, ea, _) = read_bytes_total addr 0 4 (omega arith) in
    let (p, ep, _) = read_bytes_total port 0 2 (omega arith) in
    (record { is_v6 = false; addr = a; port = p }, rw (e, ea, ep) refl)
build_sockaddr_total atyp addr port two (inr (e, h)) =
    let (a, ea, _) = read_bytes_total addr 0 16 (omega arith) in
    let (p, ep, _) = read_bytes_total port 0 2 (omega arith) in
    (record { is_v6 = true; addr = a; port = p }, rw (e, ea, ep) refl)
