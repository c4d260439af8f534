-- ===== src/Sockaddr/Literal.antt =====
-- `sockaddr_from_ip_port` with a port of two bytes.
use g_proxy_pro.Base.{
  ℕ, ◌≡◌, ◌∙◌, sym, refl, ap, true, false, Option, none, some, List, [], ◌∷◌, length, Option-cases,
  inl, inr, read_bytes_all,
}
use g_proxy_pro.Sockaddr.{Sockaddr, Pton, sockaddr_from_ip_port}

-- A text is tried as an IPv6 literal, then as an IPv4 one; the port is the one given, and nothing is
-- read outside it.
pub sockaddr_from_ip_port_lem :
    (pton : Pton) (ip port : List ℕ)
    → length port ≡ 2
    → (r : Option Sockaddr) × (sockaddr_from_ip_port pton ip port ≡ some r)
      × ((a : Sockaddr) → r ≡ some a → a.port ≡ port)
unfolding sockaddr_from_ip_port
sockaddr_from_ip_port_lem pton [] port two = (none, refl, λ a e. cc)
sockaddr_from_ip_port_lem pton (c ∷ ip) port two = elim (Option-cases (pton.v6 (c ∷ ip))) [
  | inr (a, e6) ↦
      let r : Sockaddr = record { is_v6 = true; addr = a; port = port } in
      (
        some r,
        rw (e6, read_bytes_all port 2 two, sockaddr_from_ip_port) refl,
        λ b e. ported r b e refl,
      )
  | inl n6 ↦ elim (Option-cases (pton.v4 (c ∷ ip))) [
    | inr (a, e4) ↦
        let r : Sockaddr = record { is_v6 = false; addr = a; port = port } in
        (
          some r,
          rw (n6, e4, read_bytes_all port 2 two, sockaddr_from_ip_port) refl,
          λ b e. ported r b e refl,
        )
    | inl n4 ↦ (none, rw (n6, n4, sockaddr_from_ip_port) refl, λ b e. absurd cc)
  ]
]
  where
    ported : (r b : Sockaddr) → some r ≡ some b → r.port ≡ port → b.port ≡ port
    ported r b e p = let same : r ≡ b = cc in ap (λ x. x.port) (sym same) ∙ p
