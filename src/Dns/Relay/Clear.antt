-- ===== src/Dns/Relay/Clear.antt =====
-- What the two walks over a worker's sessions do to the held frames of a host.
use g_proxy_pro.Base.{
  ◌∙◌, Option-cases, ℕ, ◌+◌, ◌≤◌, ◌≡◌, refl, arith, Bool, true, false, not, ◌&&◌, ◌||◌, Option,
  none, some, List, [], ◌∷◌, map, ◌==◌, if◌then◌else◌, bytes_eq, Bool-cases, inl, inr, ap, ap₂,
}
use g_proxy_pro.Sockaddr.{Sockaddr}
use g_proxy_pro.Event.Udp.{conn_magic}
use g_proxy_pro.Dns.{Pend, pend_count}
use g_proxy_pro.Dns.Relay.{
  Sendto, Out, send_5g, flush_hit, flush_pend, flush_pends, flush_pending, drop_pends, drop_pending,
}
use g_proxy_pro.Udp.{UdpConn}

-- Whether a frame is held for a host.
abbrev pub waits : List ℕ → Pend → Bool
waits host p = p.used && bytes_eq p.host host

abbrev pub clear : List ℕ → Pend → Pend
clear host p = if waits host p then record p { used = false } else p

abbrev pub clear_conn : List ℕ → UdpConn → UdpConn
clear_conn host u = if u.magic == conn_magic then record u { pend = map (clear host) u.pend } else u

-- How many frames are held for a host.
abbrev pub count_waits : List ℕ → List Pend → ℕ
count_waits host [] = 0
count_waits host (p ∷ ps) =
    let rest = count_waits host ps in if waits host p then rest + 1 else rest

abbrev pub held_for : List ℕ → List UdpConn → ℕ
held_for host [] = 0
held_for host (u ∷ us) =
    let rest = held_for host us in
    if u.magic == conn_magic then count_waits host u.pend + rest else rest

-- How many frames are held in all.
abbrev pub held : List UdpConn → ℕ
held [] = 0
held (u ∷ us) = pend_count u.pend + held us

-- How many frames were dropped, sent on, or lost with their session.
abbrev pub gone : Out → ℕ
gone out = out.drop + out.replay + out.lost

send_5g-counts :
    (sendto : Sendto) (fd : Option ℕ) (payload : List ℕ) (dst : Sockaddr) (out : Out)
    → let out' = send_5g sendto fd payload dst out in
      (out'.drop ≡ out.drop) × (out'.replay ≡ out.replay) × (out'.lost ≡ out.lost)
unfolding send_5g
send_5g-counts sendto none payload dst out = (refl, refl, refl)
send_5g-counts sendto (some fd) [] dst out = (refl, refl, refl)
send_5g-counts sendto (some fd) (b ∷ payload) dst out =
    elim (Option-cases (sendto (record { fd = fd; payload = b ∷ payload; dst = dst }))) [
      | inl e ↦ rw (e, send_5g) (refl, refl, refl)
      | inr (n, e) ↦ rw (e, send_5g) (refl, refl, refl)
    ]

module _ (sendto : Sendto) (host : List ℕ) (dst : Sockaddr) where
  flush_hit-counts :
      (closed : Bool) (fd : Option ℕ) (p : Pend) (out : Out)
      → let out' = flush_hit sendto dst closed fd p out in
        (out'.drop ≡ out.drop) × (out'.replay + out'.lost ≡ out.replay + out.lost + 1)
  unfolding flush_hit
  flush_hit-counts closed none p out = (refl, omega arith)
  flush_hit-counts true (some n) p out = (refl, omega arith)
  flush_hit-counts false (some n) p out =
      let (d, r, l) = send_5g-counts sendto (some n) p.payload dst out in (d, omega (arith, r, l))

  flush_pend_lem :
      (closed : Bool) (fd : Option ℕ) (p : Pend) (out : Out)
      → let (p', out') = flush_pend sendto host dst closed fd p out in
        (p' ≡ clear host p)
        × (out'.drop ≡ out.drop)
        × (out'.replay + out'.lost ≡ out.replay + out.lost + (if waits host p then 1 else 0))
  unfolding flush_pend
  flush_pend_lem closed fd p out = elim (Bool-cases (not p.used || not (bytes_eq p.host host))) [
    | inl other ↦
        let kept : waits host p ≡ false = ground arith in rw (other, kept) (refl, refl, omega arith)
    | inr hit ↦
        let met : waits host p ≡ true = ground arith in
        rw (hit, met) (let (d, n) = flush_hit-counts closed fd p out in (refl, d, n))
  ]

  flush_pends_lem :
      (closed : Bool) (fd : Option ℕ) (ps : List Pend) (out : Out)
      → let (ps', out') = flush_pends sendto host dst closed fd ps out in
        (ps' ≡ map (clear host) ps)
        × (out'.drop ≡ out.drop)
        × (out'.replay + out'.lost ≡ out.replay + out.lost + count_waits host ps)
  unfolding flush_pends
  flush_pends_lem closed fd [] out = (refl, refl, omega arith)
  flush_pends_lem closed fd (p ∷ ps) out =
      let (e, d, n) = flush_pend_lem closed fd p out in
      let out1 = (flush_pend sendto host dst closed fd p out).1 in
      let (e', d', n') = flush_pends_lem closed fd ps out1 in
      (ap₂ ◌∷◌ e e', d' ∙ d, ground (arith, n, n'))

  -- For every session with its magic the frames held for the host are cleared; the others stay. As
  -- many as there were are counted as sent on or lost, and none as dropped.
  pub flush_pending_lem :
      (us : List UdpConn) (out : Out)
      → let (us', out') = flush_pending sendto host dst us out in
        (us' ≡ map (clear_conn host) us)
        × (out'.drop ≡ out.drop)
        × (out'.replay + out'.lost ≡ out.replay + out.lost + held_for host us)
  unfolding flush_pending
  flush_pending_lem [] out = (refl, refl, omega arith)
  flush_pending_lem (u ∷ us) out = elim (Bool-cases (u.magic == conn_magic)) [
    | inl good ↦
        let (e, d, n) = flush_pends_lem u.closed u.remote_udp_fd u.pend out in
        let out1 = (flush_pends sendto host dst u.closed u.remote_udp_fd u.pend out).1 in
        let (e', d', n') = flush_pending_lem us out1 in
        rw good (ap₂ (λ ps vs. record u { pend = ps } ∷ vs) e e', d' ∙ d, omega (arith, n, n'))
    | inr bad ↦ let (e, d, n) = flush_pending_lem us out in rw bad (ap (λ vs. u ∷ vs) e, d, n)
  ]

module _ (host : List ℕ) where
  drop_pends_lem :
      (ps : List Pend) (out : Out)
      → let (ps', out') = drop_pends host ps out in
        (ps' ≡ map (clear host) ps)
        × (out'.drop ≡ out.drop + count_waits host ps)
        × (out'.replay ≡ out.replay)
        × (out'.lost ≡ out.lost)
  unfolding drop_pends
  drop_pends_lem [] out = (refl, omega arith, refl, refl)
  drop_pends_lem (p ∷ ps) out = elim (Bool-cases (waits host p)) [
    | inl hit ↦
        let (e, d, r, l) = drop_pends_lem ps (record out { drop = out.drop + 1 }) in
        rw hit (ap (λ qs. record p { used = false } ∷ qs) e, omega (arith, d), r, l)
    | inr other ↦
        let (e, d, r, l) = drop_pends_lem ps out in rw other (ap (λ qs. p ∷ qs) e, d, r, l)
  ]

  -- The same frames are cleared where there is no answer, and counted as dropped.
  pub drop_pending_lem :
      (us : List UdpConn) (out : Out)
      → let (us', out') = drop_pending host us out in
        (us' ≡ map (clear_conn host) us)
        × (out'.drop ≡ out.drop + held_for host us)
        × (out'.replay ≡ out.replay)
        × (out'.lost ≡ out.lost)
  unfolding drop_pending
  drop_pending_lem [] out = (refl, omega arith, refl, refl)
  drop_pending_lem (u ∷ us) out = elim (Bool-cases (u.magic == conn_magic)) [
    | inl good ↦
        let (e, d, r, l) = drop_pends_lem u.pend out in
        let (e', d', r', l') = drop_pending_lem us (drop_pends host u.pend out).1 in
        rw good
          (ap₂ (λ ps vs. record u { pend = ps } ∷ vs) e e', omega (arith, d, d'), r' ∙ r, l' ∙ l)
    | inr bad ↦ let (e, d, r, l) = drop_pending_lem us out in rw bad (ap (λ vs. u ∷ vs) e, d, r, l)
  ]

count_waits-clear :
    (host : List ℕ) (ps : List Pend)
    → (pend_count (map (clear host) ps) + count_waits host ps ≡ pend_count ps)
      × ((h : List ℕ) → count_waits h (map (clear host) ps) ≤ count_waits h ps)
      × (count_waits host (map (clear host) ps) ≡ 0)
unfolding pend_count
count_waits-clear host [] = (refl, (λ h. omega arith), refl)
count_waits-clear host (p ∷ ps) =
    let (c, le, z) = count_waits-clear host ps in
    (ground (arith, c), (λ h. ground (arith, le h)), ground (arith, z))

-- Clearing takes exactly the frames of the host out of the held ones, adds to no host, and leaves none
-- of its own.
pub held_for-clear :
    (host : List ℕ) (us : List UdpConn)
    → (held (map (clear_conn host) us) + held_for host us ≡ held us)
      × ((h : List ℕ) → held_for h (map (clear_conn host) us) ≤ held_for h us)
      × (held_for host (map (clear_conn host) us) ≡ 0)
held_for-clear host [] = (refl, (λ h. omega arith), refl)
held_for-clear host (u ∷ us) =
    let (c, le, z) = held_for-clear host us in
    let (cp, lep, zp) = count_waits-clear host u.pend in
    elim (Bool-cases (u.magic == conn_magic)) [
      | inl good ↦
          rw (good, good)
            (omega (arith, c, cp), (λ h. omega (arith, le h, lep h)), omega (arith, z, zp))
      | inr bad ↦ rw (bad, bad) (omega (arith, c), le, z)
    ]
