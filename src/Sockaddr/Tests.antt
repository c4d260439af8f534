-- ===== src/Sockaddr/Tests.antt =====
-- 1.2.3.4 as an IPv4 address and in its mapped form.
use g_proxy_pro.Base.{◌≡◌, ◌↔◌, ◌⊎◌, refl, true, false, some, [], ◌∷◌}
use g_proxy_pro.Sockaddr.{Sockaddr, same_ip}
use g_proxy_pro.Sockaddr.SameIp.{wide, same_ip_iff}

abbrev plain : Sockaddr
plain = record { is_v6 = false; addr = 1 ∷ 2 ∷ 3 ∷ 4 ∷ []; port = 0 ∷ 80 ∷ [] }

abbrev mapped : Sockaddr
mapped = record {
  is_v6 = true;
  addr = 0 ∷ 0 ∷ 0 ∷ 0 ∷ 0 ∷ 0 ∷ 0 ∷ 0 ∷ 0 ∷ 0 ∷ 255 ∷ 255 ∷ 1 ∷ 2 ∷ 3 ∷ 4 ∷ [];
  port = 1 ∷ 187 ∷ [];
}

same_ip_example :
    ((same_ip plain mapped ≡ some true) ⊎ (same_ip plain mapped ≡ some false))
    × ((same_ip plain mapped ≡ some true) ↔ (wide false plain.addr ≡ wide true mapped.addr))
    × (false ≡ true → (same_ip plain mapped ≡ some true) ↔ (plain.addr ≡ mapped.addr))
same_ip_example = same_ip_iff plain mapped (refl, refl) (refl, refl)
