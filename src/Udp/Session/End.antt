-- ===== src/Udp/Session/End.antt =====
-- A session's end comes once.
use g_proxy_pro.Base.{
  ℕ, zero, suc, ◌+◌, ◌-◌, ◌%◌, ◌^◌, ◌≡◌, refl, ap, ◌∙◌, arith, Bool, true, false, none, List, [],
  ◌∷◌, ◌++◌, ◌==◌, if◌then◌else◌, Bool-cases, inl, inr,
}
use g_proxy_pro.Udp.{UdpConn}
use g_proxy_pro.Udp.Session.{
  Effect, Shared, free_in, free_out, close_fd, close_remote, counted_kind, add_slot, give_back,
  finalize, unref, unref_times,
}

-- What a session has to give back, in order.
abbrev pub owed : UdpConn → List Effect
owed u =
    close_fd u.client_fd
    ++ (close_fd u.local_udp_fd ++ (close_remote u.remote_udp_fd ++ free_in ∷ free_out ∷ []))

-- The session with one reference less.
abbrev dropped : UdpConn → UdpConn
dropped u = record u { refs = (u.refs + (2 ^ 32 - 1)) % 2 ^ 32 }

by_count :
    (now : ℕ) (u : UdpConn) (s : Shared) (last : Bool)
    → (u.refs == 1) ≡ last
    → unref now u s ≡ (if last then finalize now (dropped u) s else (dropped u, s, none))
unfolding unref
by_count now u s last e = ap (λ b. if b then finalize now (dropped u) s else (dropped u, s, none)) e

by_flag :
    (now : ℕ) (u : UdpConn) (s : Shared) (over : Bool)
    → u.finalized ≡ over
    → finalize now u s
      ≡ (if over then (u, record s { double_fin = s.double_fin + 1 }, none) else give_back now u s)
unfolding finalize
by_flag now u s over e =
    ap (λ b. if b then (u, record s { double_fin = s.double_fin + 1 }, none) else give_back now u s)
      e

ended_once :
    (now : ℕ) (u : UdpConn) (s : Shared)
    → u.finalized ≡ true
    → let (u', s', slot) = unref now u s in
      (u'.finalized ≡ true) × (s'.effects ≡ s.effects) × (s'.kinds ≡ s.kinds) × (slot ≡ none)
ended_once now u s over = elim (Bool-cases (u.refs == 1)) [
  | inl last ↦
      let e = by_count now u s true last ∙ by_flag now (dropped u) s true over in
      (
        ap (λ r. r.0.finalized) e ∙ over,
        ap (λ r. r.1.effects) e,
        ap (λ r. r.1.kinds) e,
        ap (λ r. r.2) e,
      )
  | inr more ↦
      let e = by_count now u s false more in
      (
        ap (λ r. r.0.finalized) e ∙ over,
        ap (λ r. r.1.effects) e,
        ap (λ r. r.1.kinds) e,
        ap (λ r. r.2) e,
      )
]

ended_times :
    (now n : ℕ) (u : UdpConn) (s : Shared)
    → u.finalized ≡ true
    → let (u', s', slots) = unref_times now n u s in
      (s'.effects ≡ s.effects) × (s'.kinds ≡ s.kinds) × (slots ≡ [])
unfolding unref_times add_slot
ended_times now zero u s over = (refl, refl, refl)
ended_times now (suc n) u s over =
    let (f, e, k, none_released) = ended_once now u s over in
    let (e', k', slots) = ended_times now n (unref now u s).0 (unref now u s).1 f in
    (e' ∙ e, k' ∙ k, rw (none_released, slots) refl)

-- A session with one reference that has not ended, dropped at least once: everything has been given
-- back exactly once, however often it was dropped: its descriptors are closed, the Java side of the 5G
-- one before the descriptor itself, and its buffers freed; the end is counted once, under its kind; and
-- its slot has been released once.
pub session_end_lem :
    (now n : ℕ) (u : UdpConn) (s : Shared)
    → u.refs ≡ 1
    → u.finalized ≡ false
    → let (u', s', slots) = unref_times now (suc n) u s in
      (s'.effects ≡ s.effects ++ owed u)
      × (s'.kinds ≡ counted_kind u.close_kind ∷ s.kinds)
      × (slots ≡ u.slot ∷ [])
unfolding unref_times add_slot give_back
session_end_lem now n u s e first =
    let last : (u.refs == 1) ≡ true = ground arith in
    let r = by_count now u s true last ∙ by_flag now (dropped u) s false first in
    let (eff, kinds, slots) =
      ended_times now n (give_back now (dropped u) s).0 (give_back now (dropped u) s).1 refl in
    rw r (eff, kinds, ap (λ xs. u.slot ∷ xs) slots)
