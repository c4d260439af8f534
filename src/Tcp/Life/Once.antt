-- ===== src/Tcp/Life/Once.antt =====
-- A connection's end comes once, and in the right order.
use g_proxy_pro.Base.{
  subst, ◌^◌, ◌%◌, ℕ, zero, suc, ◌+◌, ◌-◌, ◌≤◌, ◌<◌, ◌≡◌, refl, sym, ap, ap₂, ◌∙◌, arith, true,
  false, none, List, [], ◌∷◌, ◌++◌, Bool-cases, inl, inr, ◌⊎◌, ◌==◌, if◌then◌else◌,
}
use g_proxy_pro.Tcp.{FullConn}
use g_proxy_pro.Tcp.Life.{
  Effect, close_client, close_target, free_bufs, give_back, Shared, remove, finalize, option_list,
  unref_times, unref,
}

-- What a connection has to give back, in order.
abbrev pub owed : FullConn → List Effect
owed c =
    close_client c.client_fd ++ (close_target c.target_fd ++ free_bufs c.has_c2t_buf c.has_t2c_buf)

-- Whether a slot is in a list.
abbrev pub Listed : ℕ → List ℕ → Type 0
Listed slot [] = ⊥
Listed slot (x ∷ xs) = (x ≡ slot) ⊎ Listed slot xs

remove-Listed : (slot : ℕ) (xs : List ℕ) → ¬ Listed slot (remove slot xs)
unfolding remove
remove-Listed slot [] h = h
remove-Listed slot (x ∷ xs) h = elim (Bool-cases (x == slot)) [
  | inl same ↦ remove-Listed slot xs (rw same at h)
  | inr other ↦ elim (rw other at h) [
    | inl e ↦ ground (arith, other)
    | inr later ↦ remove-Listed slot xs later
  ]
]

unref_more :
    (c : FullConn) (s : Shared) (r : ℕ)
    → c.refs ≡ suc (suc r)
    → c.refs < 2 ^ 32
    → let (c', s', slot) = unref c s in
      (c'.refs ≡ suc r)
      × (c'.finalized ≡ c.finalized)
      × (owed c' ≡ owed c)
      × (c'.slot ≡ c.slot)
      × (s' ≡ s)
      × (slot ≡ none)
unfolding unref
unref_more c s r e lt =
    let test : (c.refs == 1) ≡ false = ground arith in
    rw (test, unref) (omega arith, refl, refl, refl, refl, refl)

finalize_first : (c : FullConn) (s : Shared) → c.finalized ≡ false → finalize c s ≡ give_back c s
unfolding finalize
finalize_first c s f =
    ap (λ b. if b then (c, record s { double_fin = s.double_fin + 1 }, none) else give_back c s) f

finalize_again :
    (c : FullConn) (s : Shared)
    → c.finalized ≡ true
    → finalize c s ≡ (c, record s { double_fin = s.double_fin + 1 }, none)
unfolding finalize
finalize_again c s f =
    ap (λ b. if b then (c, record s { double_fin = s.double_fin + 1 }, none) else give_back c s) f

-- The connection with one reference less.
abbrev dropped : FullConn → FullConn
dropped c = record c { refs = (c.refs + (2 ^ 32 - 1)) % 2 ^ 32 }

unref_last :
    (c : FullConn) (s : Shared)
    → c.refs ≡ 1
    → c.finalized ≡ false
    → unref c s ≡ give_back (dropped c) s
unfolding unref
unref_last c s e first =
    let last : (c.refs == 1) ≡ true = ground arith in
    ap (λ b. if b then finalize (dropped c) s else (dropped c, s, none)) last
    ∙ finalize_first (dropped c) s first

unref_ended :
    (c : FullConn) (s : Shared)
    → c.finalized ≡ true
    → let (c', s', slot) = unref c s in
      (c'.finalized ≡ true) × (s'.effects ≡ s.effects) × (slot ≡ none) × (s'.list ≡ s.list)
unfolding unref
unref_ended c s over = elim (Bool-cases (c.refs == 1)) [
  | inl last ↦
      let e =
        ap (λ b. if b then finalize (dropped c) s else (dropped c, s, none)) last
        ∙ finalize_again (dropped c) s over in
      (
        ap (λ r. r.0.finalized) e ∙ over,
        ap (λ r. r.1.effects) e,
        ap (λ r. r.2) e,
        ap (λ r. r.1.list) e,
      )
  | inr more ↦
      let e = ap (λ b. if b then finalize (dropped c) s else (dropped c, s, none)) more in
      (
        ap (λ r. r.0.finalized) e ∙ over,
        ap (λ r. r.1.effects) e,
        ap (λ r. r.2) e,
        ap (λ r. r.1.list) e,
      )
]

-- After its end a connection gives nothing back any more, however often it is dropped.
unref_times_ended :
    (n : ℕ) (c : FullConn) (s : Shared)
    → c.finalized ≡ true
    → let (c', s', slots) = unref_times n c s in
      (c'.finalized ≡ true) × (s'.effects ≡ s.effects) × (slots ≡ []) × (s'.list ≡ s.list)
unfolding unref_times option_list
unref_times_ended zero c s over = (over, refl, refl, refl)
unref_times_ended (suc n) c s over =
    let (f, e, none_released, l) = unref_ended c s over in
    let (f', e', slots, l') = unref_times_ended n (unref c s).0 (unref c s).1 f in
    (f', e' ∙ e, rw (none_released, slots) refl, l' ∙ l)

-- However often a connection with so many references is dropped: before the last reference goes nothing
-- is given back, and from then on everything has been given back exactly once: in this order the
-- client's descriptor is closed, the Java side of the target's is released and then it is closed, and
-- the buffers are freed; its slot has been released once, and no list holds it.
pub unref_times_lem :
    (n r : ℕ) (c : FullConn) (s : Shared)
    → c.refs ≡ suc r
    → c.refs < 2 ^ 32
    → c.finalized ≡ false
    → let (c', s', slots) = unref_times n c s in
      (n ≤ r → (s' ≡ s) × (slots ≡ []) × (c'.finalized ≡ false))
      × (r < n
          → (s'.effects ≡ s.effects ++ owed c)
            × (slots ≡ c.slot ∷ [])
            × (c'.finalized ≡ true)
            × (¬ Listed c.slot s'.list))
unfolding unref_times option_list give_back
unref_times_lem zero r c s e lt first = ((λ le. (refl, refl, first)), λ gt. absurd (omega arith))
unref_times_lem (suc n) zero c s e lt first = ((λ le. absurd (omega arith)), λ gt. ended)
  where
    ended :
        let (c', s', slots) = unref_times (suc n) c s in
        (s'.effects ≡ s.effects ++ owed c)
        × (slots ≡ c.slot ∷ [])
        × (c'.finalized ≡ true)
        × (¬ Listed c.slot s'.list)
    ended =
        let (f, eff, slots, l) =
          unref_times_ended n (give_back (dropped c) s).0 (give_back (dropped c) s).1 refl in
        rw (unref_last c s e first)
          (eff, ap (λ xs. c.slot ∷ xs) slots, f, λ h. remove-Listed c.slot s.list (rw l at h))
unref_times_lem (suc n) (suc r) c s e lt first =
    let (refs, fin, owes, slot, same, none_yet) = unref_more c s r e lt in
    let c1 = (unref c s).0 in
    let s1 = (unref c s).1 in
    let (before, after) = unref_times_lem n r c1 s1 refs (omega arith) (fin ∙ first) in
    (
      (λ le. let (a, b, f) = before (omega arith) in (a ∙ same, rw none_yet b, f)),
      λ gt.
          let (eff, b, f, l) = after (omega arith) in
          (
            eff ∙ ap₂ (λ x y. x ++ y) (ap (λ x. x.effects) same) owes,
            rw none_yet (b ∙ ap (λ x. x ∷ []) slot),
            f,
            λ h. l (subst (λ x. Listed x (unref_times n c1 s1).1.list) (sym slot) h),
          ),
    )
