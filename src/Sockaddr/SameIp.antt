-- ===== src/Sockaddr/SameIp.antt =====
-- `same_ip` decides whether two addresses are one IP, an IPv4 address and its mapped form included.
use g_proxy_pro.Base.{
  ap, ℕ, ◌≡◌, refl, ◌↔◌, ◌⊎◌, Bool, true, false, some, List, [], ◌∷◌, ◌++◌, arith, if◌then◌else◌,
  length, replicate, bytes_eq, bytes_eq_sound, bytes_eq_refl,
}
use g_proxy_pro.Proto.Encode.{addr_size}
use g_proxy_pro.Proto.Address.{addr_normalize_lem}
use g_proxy_pro.Sockaddr.{Sockaddr, same_ip}

abbrev pub IsWhole : Sockaddr → Type 0
IsWhole a = (length a.addr ≡ addr_size a.is_v6) × (length a.port ≡ 2)

-- The address as one of 128 bits.
abbrev pub wide : Bool → List ℕ → List ℕ
wide is_v6 addr = if is_v6 then addr else replicate 10 0 ++ (0xff ∷ 0xff ∷ []) ++ addr

wide_iff : (is_v6 : Bool) (x y : List ℕ) → (wide is_v6 x ≡ wide is_v6 y) ↔ (x ≡ y)
wide_iff true x y = ((λ e. e), λ e. e)
wide_iff false x y = ((λ e. ground arith), λ e. rw e refl)

same_ip_lem :
    (a b : Sockaddr)
    → IsWhole a
    → IsWhole b
    → same_ip a b ≡ some (bytes_eq (wide a.is_v6 a.addr) (wide b.is_v6 b.addr))
unfolding same_ip
same_ip_lem a b wa wb =
    rw (addr_normalize_lem a.addr a.is_v6 wa.0, addr_normalize_lem b.addr b.is_v6 wb.0) refl

bytes_eq_iff : (xs ys : List ℕ) → (bytes_eq xs ys ≡ true) ↔ (xs ≡ ys)
bytes_eq_iff xs ys = (bytes_eq_sound xs ys, λ e. rw e (bytes_eq_refl ys))

-- For two whole addresses the comparison stays inside its buffers, and succeeds exactly if they are
-- the same address of 128 bits, an IPv4 address counting as its mapped form; so two of one family must
-- be equal, and ports play no part.
pub same_ip_iff :
    (a b : Sockaddr)
    → IsWhole a
    → IsWhole b
    → ((same_ip a b ≡ some true) ⊎ (same_ip a b ≡ some false))
      × ((same_ip a b ≡ some true) ↔ (wide a.is_v6 a.addr ≡ wide b.is_v6 b.addr))
      × (a.is_v6 ≡ b.is_v6 → (same_ip a b ≡ some true) ↔ (a.addr ≡ b.addr))
same_ip_iff a b wa wb = rw (same_ip_lem a b wa wb) (
  ground arith,
  ((λ h. both.0 (ground arith)), λ h. ap some (both.1 h)),
  λ f. (
    (λ h. (wide_iff b.is_v6 a.addr b.addr).0 (rw f at (both.0 (ground arith)))),
    λ h. ap some (both.1 (rw (f, h) refl)),
  ),
)
  where
    both :
        (bytes_eq (wide a.is_v6 a.addr) (wide b.is_v6 b.addr) ≡ true)
        ↔ (wide a.is_v6 a.addr ≡ wide b.is_v6 b.addr)
    both = bytes_eq_iff _ _
