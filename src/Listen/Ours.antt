-- ===== src/Listen/Ours.antt =====
-- `listener_is_ours` of app/src/main/cpp/simple-socks5.c: what is known of a descriptor is asked of the
-- system, since its number may stand for another socket by now.
use g_proxy_pro.Base.{
  ℕ, ◌%◌, ◌^◌, ◌≡◌, ◌↔◌, ◌∙◌, inl, inr, refl, ap, arith, Bool, true, false, Option, none, some,
  List, ◌==◌, if◌then◌else◌, Bool-cases, bytes_eq, bytes_eq_sound, bytes_eq_refl,
}

-- What `getsockname` gives: an address and a port in the order of the host, or another family.
pub data Name : Type 0 where
  inet inet6 : List ℕ → ℕ → Name
  other_family : Name

-- `getsockopt(.., SO_ACCEPTCONN, ..)`, `getsockname` and `inet_ntop`, each `none` when it fails.
pub record Sockets : Type 0 where
  pub accepting : ℕ → Option Bool
  pub name_of : ℕ → Option Name
  pub ntop : Bool → List ℕ → Option (List ℕ)

-- The text of the address, if the port is `port`.
text_at : Sockets → ℕ → Option Name → Option (List ℕ)
text_at w port none = none
text_at w port (some (inet addr p)) = if p == port % 2 ^ 16 then w.ntop false addr else none
text_at w port (some (inet6 addr p)) = if p == port % 2 ^ 16 then w.ntop true addr else none
text_at w port (some other_family) = none

same_text : List ℕ → Option (List ℕ) → Bool
same_text ip none = false
same_text ip (some text) = bytes_eq text ip

checked : Option Bool → Bool → Bool
checked none b = false
checked (some false) b = false
checked (some true) b = b

-- A descriptor that is -1 is `none`.
pub listener_is_ours : Sockets → Option ℕ → List ℕ → ℕ → Bool
listener_is_ours w none ip port = false
listener_is_ours w (some fd) ip port =
    checked (w.accepting fd) (same_text ip (text_at w port (w.name_of fd)))

-- The name of a descriptor is an address with this text, and this port.
pub data Listens (w : Sockets) (fd : ℕ) (ip : List ℕ) (port : ℕ) : Type 0 where
  at_v4 :
      (addr : List ℕ)
      → w.name_of fd ≡ some (inet addr port)
      → w.ntop false addr ≡ some ip
      → Listens w fd ip port
  at_v6 :
      (addr : List ℕ)
      → w.name_of fd ≡ some (inet6 addr port)
      → w.ntop true addr ≡ some ip
      → Listens w fd ip port

module _ (w : Sockets) (fd : ℕ) (ip : List ℕ) (port : ℕ) where
  same_text-Named : (t : Option (List ℕ)) → same_text ip t ≡ true → t ≡ some ip
  unfolding same_text
  same_text-Named none h = absurd cc
  same_text-Named (some t) h = ap some (bytes_eq_sound t ip h)

  checked_both : (o : Option Bool) (b : Bool) → checked o b ≡ true → (o ≡ some true) × (b ≡ true)
  unfolding checked
  checked_both none b h = absurd cc
  checked_both (some false) b h = absurd cc
  checked_both (some true) b h = (refl, h)

  guarded :
      (addr : List ℕ) (p : ℕ) (t : Option (List ℕ))
      → (if p == port % 2 ^ 16 then t else none) ≡ some ip
      → (p ≡ port % 2 ^ 16) × (t ≡ some ip)
  guarded addr p t h = elim (Bool-cases (p == port % 2 ^ 16)) [
    | inl same ↦ (ground arith, rw same at h)
    | inr other ↦ absurd (cc (rw other at h))
  ]

  text_at-Listens :
      (n : Option Name)
      → w.name_of fd ≡ n
      → text_at w port n ≡ some ip
      → Listens w fd ip (port % 2 ^ 16)
  unfolding text_at
  text_at-Listens none e h = absurd cc
  text_at-Listens (some (inet addr p)) e h =
      let (q, t) = guarded addr p (w.ntop false addr) h in
      at_v4 addr (e ∙ ap (λ p. some (inet addr p)) q) t
  text_at-Listens (some (inet6 addr p)) e h =
      let (q, t) = guarded addr p (w.ntop true addr) h in
      at_v6 addr (e ∙ ap (λ p. some (inet6 addr p)) q) t
  text_at-Listens (some other_family) e h = absurd cc

  Listens-text_at : Listens w fd ip (port % 2 ^ 16) → text_at w port (w.name_of fd) ≡ some ip
  unfolding text_at
  Listens-text_at (at_v4 addr e t) =
      let same : (port % 2 ^ 16 == port % 2 ^ 16) ≡ true = ground arith in
      ap (λ n. text_at w port n) e ∙ rw same t
  Listens-text_at (at_v6 addr e t) =
      let same : (port % 2 ^ 16 == port % 2 ^ 16) ≡ true = ground arith in
      ap (λ n. text_at w port n) e ∙ rw same t

  -- A descriptor is taken for ours exactly if it accepts connections and its name is the port, in 16
  -- bits, and an address with the text that was asked for.
  pub listener_is_ours_iff :
      (listener_is_ours w (some fd) ip port ≡ true)
      ↔ ((w.accepting fd ≡ some true) × Listens w fd ip (port % 2 ^ 16))
  unfolding listener_is_ours checked same_text
  listener_is_ours_iff = (
    (λ h.
        let (accepts, same) = checked_both (w.accepting fd) _ h in
        (
          accepts,
          text_at-Listens (w.name_of fd) refl
              (same_text-Named (text_at w port (w.name_of fd)) same),
        )),
    λ (accepts, l).
        ap (λ o. checked o (same_text ip (text_at w port (w.name_of fd)))) accepts
        ∙ ap (λ t. same_text ip t) (Listens-text_at l)
        ∙ bytes_eq_refl ip,
  )
