-- ===== src/Handshake/Config.antt =====
-- The configured credentials.
use mathlib.Core.Option.{some-injective}
use g_proxy_pro.Base.{
  ap, ℕ, suc, ◌≤◌, ◌<◌, ◌≡◌, ◌↔◌, refl, arith, true, Option, none, some, List, [], ◌∷◌, length,
  take,
}
use g_proxy_pro.Handshake.{set_auth}
use g_proxy_pro.Handshake.Quiet.{Stored}

take-short : (n : ℕ) (xs : List ℕ) → length (take n xs) ≤ n
take-short ℕ.zero xs = omega arith
take-short (suc n) [] = omega arith
take-short (suc n) (x ∷ xs) = omega (arith, take-short n xs)

-- Neither missing nor empty.
abbrev pub Given : Option (List ℕ) → Type 0
Given o = (c : ℕ) × (cs : List ℕ) × (o ≡ some (c ∷ cs))

-- Whatever is given, each text that is kept has at most 255 bytes. A password is asked for exactly if a
-- user and a password are given that are both not empty, and then the user that is kept is not empty,
-- and both are the first 255 bytes of those given.
pub set_auth_lem :
    (user pass : Option (List ℕ))
    → let auth = set_auth user pass in
      Stored auth
      × ((auth.enabled ≡ true) ↔ (Given user × Given pass))
      × (auth.enabled ≡ true → 0 < length auth.user)
      × ((u p : List ℕ)
          → user ≡ some u
          → pass ≡ some p
          → auth.enabled ≡ true
          → (auth.user ≡ take 255 u) × (auth.pass ≡ take 255 p))
unfolding set_auth
set_auth_lem none pass = (
  record { user = omega arith; pass = omega arith },
  ((λ h. absurd cc), λ (g, _). absurd (cc (g.2))),
  (λ h. absurd cc),
  λ u p e f h. absurd cc,
)
set_auth_lem (some user) none = (
  record { user = omega arith; pass = omega arith },
  ((λ h. absurd cc), λ (_, g). absurd (cc (g.2))),
  (λ h. absurd cc),
  λ u p e f h. absurd cc,
)
set_auth_lem (some []) (some pass) = (
  record { user = omega arith; pass = omega arith },
  ((λ h. absurd cc), λ (g, _). absurd (cc (g.2))),
  (λ h. absurd cc),
  λ u p e f h. absurd cc,
)
set_auth_lem (some (u ∷ user)) (some []) = (
  record { user = omega arith; pass = omega arith },
  ((λ h. absurd cc), λ (_, g). absurd (cc (g.2))),
  (λ h. absurd cc),
  λ u p e f h. absurd cc,
)
set_auth_lem (some (u ∷ user)) (some (p ∷ pass)) = (
  record { user = take-short 255 (u ∷ user); pass = take-short 255 (p ∷ pass) },
  ((λ h. ((u, user, refl), (p, pass, refl))), λ g. refl),
  (λ h. omega arith),
  λ u' p' e f h.
      (ap (λ l. take 255 l) (some-injective _ _ e), ap (λ l. take 255 l) (some-injective _ _ f)),
)
