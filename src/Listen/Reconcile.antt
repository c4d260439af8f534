-- ===== src/Listen/Reconcile.antt =====
-- What a pass of `reconcile_listeners` leaves in the table, and what it closes.
use g_proxy_pro.Listen.{is_permanent_addr}
use g_proxy_pro.Base.{
  ℕ, ◌≤◌, ◌≡◌, refl, ◌∙◌, arith, Bool, true, false, Option, List, [], ◌∷◌, ◌++◌, length, bytes_eq,
  Bool-cases, inl, inr, ◌⊎◌,
}
use g_proxy_pro.Listen.{
  Listener, Listeners, max_listeners, loopback4, loopback6, is_wanted, drop_listener, sweep, ensure,
  reconcile,
}
use g_proxy_pro.Listen.Ensure.{All, All-map, Served, Live, ensure-Grows, ensure_all-Served, in_list}

abbrev pub In : ℕ → List ℕ → Type 0
In fd [] = ⊥
In fd (x ∷ xs) = (fd ≡ x) ⊎ In fd xs

module _ (ours : ℕ → List ℕ → Bool) (desired : List (List ℕ)) where
  -- What is closed was a listener of ours at an address that is not wanted any more.
  abbrev pub Retired : ℕ → Type 0
  Retired fd = (ip : List ℕ) × (ours fd ip ≡ true) × (is_wanted desired ip ≡ false)

  -- A listener of ours at an address that is not wanted is closed.
  abbrev pub Shut : List ℕ → Listener → Type 0
  Shut closed l = is_wanted desired l.addr ≡ false → ours l.fd l.addr ≡ true → In l.fd closed

  abbrev pub Wanted : List ℕ → Type 0
  Wanted ip = is_wanted desired ip ≡ true

  abbrev pub Own : Listener → Type 0
  Own l = ours l.fd l.addr ≡ true

  sweep_lem :
      (ls : List Listener)
      → let (kept, closed) = sweep ours desired ls in
        (length kept ≤ length ls) × All Retired closed × All (λ l. Wanted l.addr × Own l) kept
  unfolding sweep drop_listener
  sweep_lem [] = (omega arith, tt, tt)
  sweep_lem (l ∷ ls) =
      let (le, closed, kept) = sweep_lem ls in
      elim (Bool-cases (is_wanted desired l.addr)) [
        | inl wanted ↦ elim (Bool-cases (ours l.fd l.addr)) [
          | inl own ↦ rw (wanted, own, sweep) (omega (arith, le), closed, ((wanted, own), kept))
          | inr lost ↦ rw (wanted, lost, sweep) (omega (arith, le), closed, kept)
        ]
        | inr unwanted ↦ elim (Bool-cases (ours l.fd l.addr)) [
          | inl own ↦
              rw (unwanted, own, sweep) (omega (arith, le), ((l.addr, own, unwanted), closed), kept)
          | inr lost ↦ rw (unwanted, lost, sweep) (omega (arith, le), closed, kept)
        ]
      ]

  -- What is closed of the others is closed, and so is the first one if it is to go.
  more-Shut :
      (l : Listener) (ls : List Listener)
      → ((fd : ℕ) → In fd (sweep ours desired ls).1 → In fd (sweep ours desired (l ∷ ls)).1)
        × Shut (sweep ours desired (l ∷ ls)).1 l
  unfolding sweep drop_listener
  more-Shut l ls = elim (Bool-cases (is_wanted desired l.addr)) [
    | inl wanted ↦ elim (Bool-cases (ours l.fd l.addr)) [
      | inl own ↦ rw (wanted, own, sweep) ((λ fd h. h), λ u o. absurd cc)
      | inr lost ↦ rw (wanted, lost, sweep) ((λ fd h. h), λ u o. absurd cc)
    ]
    | inr unwanted ↦ elim (Bool-cases (ours l.fd l.addr)) [
      | inl own ↦ rw (unwanted, own, sweep) ((λ fd h. inr h), λ u o. inl refl)
      | inr lost ↦ rw (unwanted, lost, sweep) ((λ fd h. h), λ u o. absurd cc)
    ]
  ]

  All-Shut : (ls : List Listener) → All (Shut (sweep ours desired ls).1) ls
  All-Shut [] = tt
  All-Shut (l ∷ ls) =
      let (more, first) = more-Shut l ls in
      (first, All-map ls (λ k f u o. more k.fd (f u o)) (All-Shut ls))

  -- While the server runs, after a pass each of the two loopback addresses and each wanted one, of at
  -- most 45 bytes, is in the table, unless the table is full or an attempt of the pass to bind it
  -- failed. Whatever is in the table has a wanted address or is loopback, and either still is a listener
  -- of ours or has been bound to that address in the pass. The table has no more than 18 entries. What
  -- was closed in the pass was still a listener of ours, at an address that is not wanted, and every such
  -- listener of the table has been closed. Once the server stops, a pass does nothing.
  pub reconcile_lem :
      (bind : ℕ → List ℕ → Option ℕ) (s : Listeners)
      → length s.table ≤ max_listeners
      → All (λ ip. length ip ≤ 45) desired
      → let s' = reconcile true ours bind desired s in
        Served bind s.tries Wanted Own loopback4 s'
        × Served bind s.tries Wanted Own loopback6 s'
        × All (λ ip. Served bind s.tries Wanted Own ip s') desired
        × All (Live bind s.tries Wanted Own s') s'.table
        × (length s'.table ≤ max_listeners)
        × ((closed : List ℕ) × (s'.closed ≡ s.closed ++ closed)
            × All Retired closed
            × All (Shut closed) s.table)
        × (reconcile false ours bind desired s ≡ s)
  unfolding reconcile is_permanent_addr bytes_eq
  reconcile_lem bind s fits short =
      let (le, closed, own) = sweep_lem s.table in
      let gone = All-Shut s.table in
      let (kept, shut) = sweep ours desired s.table in
      let s0 : Listeners = record s { table = kept; closed = s.closed ++ shut } in
      let live0 : All (Live bind s.tries Wanted Own s0) kept =
        All-map kept (λ l (w, o). (w, inl o)) own in
      let (at4, keep4, fit4, same4, more4, live4) =
        ensure-Grows bind s.tries Wanted Own loopback4 s0 (omega arith) (omega arith) in
      let s1 = ensure bind loopback4 s0 in
      let (at6, keep6, fit6, same6, more6, live6) =
        ensure-Grows bind s.tries Wanted Own loopback6 s1 (fit4 (omega arith)) more4 in
      let s2 = ensure bind loopback6 s1 in
      let (all, keep, end, same, live) =
        ensure_all-Served bind s.tries Wanted Own desired s2 short
          (in_list desired desired (λ ip h. h)) (fit6 (fit4 (omega arith)))
          (omega (arith, more4, more6))
          (live6 (omega arith) refl (live4 (omega arith) refl live0)) in
      (
        keep loopback4 (keep6 loopback4 (at4 (omega arith))),
        keep loopback6 (at6 (omega arith)),
        all,
        live,
        end,
        (shut, same ∙ (same6 ∙ same4), closed, gone),
        refl,
      )
