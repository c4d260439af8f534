-- ===== src/Batch/Sweep.antt =====
-- The size of the bin does not show: a scan and the drops after it end the connections that are due, once
-- each and in order, as if the bin had room for all.
use mathlib.Core.List.{append-nil, append_assoc}
use g_proxy_pro.Base.{
  subst, ℕ, ◌≤◌, ◌<◌, ◌≡◌, refl, ap, ◌∙◌, arith, inl, inr, Bool, true, false, Option, none, some,
  List, [], ◌∷◌, ◌++◌, ltb, if◌then◌else◌, length, Bool-cases, length-append,
}
use g_proxy_pro.Batch.{Engine, Dropped, Swept, add_slot, unref_all, keep, followed, sweep}

module _ {C S : Type 0} (e : Engine C S) where
  open e use {unref, unlink}

  abbrev pub unlink_all : List C → S → S
  unlink_all [] s = s
  unlink_all (c ∷ cs) s = unlink_all cs (unlink c s)

  -- One series of drops and then another.
  abbrev pub then_drop : Dropped C S → Dropped C S → Dropped C S
  then_drop d d' = record {
    ended = d.ended ++ d'.ended;
    state = d'.state;
    slots = d.slots ++ d'.slots;
  }

  add_slot-append : (o : Option ℕ) (xs ys : List ℕ) → add_slot o (xs ++ ys) ≡ add_slot o xs ++ ys
  add_slot-append none xs ys = refl
  add_slot-append (some i) xs ys = refl

  pub unref_all-append :
      (xs ys : List C) (s : S)
      → unref_all e (xs ++ ys) s
        ≡ then_drop (unref_all e xs s) (unref_all e ys (unref_all e xs s).state)
  unfolding unref_all
  unref_all-append [] ys s = refl
  unref_all-append (x ∷ xs) ys s =
      let ih = unref_all-append xs ys (unref x s).1 in
      rw (ih, add_slot-append (unref x s).2 (unref_all e xs (unref x s).1).slots _) refl

  pub unref_all-unlink :
      (cs : List C) (d : C) (s : S)
      → unref_all e cs (unlink d s) ≡ (
          let r = unref_all e cs s in
          record { ended = r.ended; state = unlink d r.state; slots = r.slots })
  unfolding unref_all
  unref_all-unlink [] d s = refl
  unref_all-unlink (c ∷ cs) d s =
      rw (e.unref-unlink c d s, unref_all-unlink cs d (unref c s).1) refl

  then_drop_assoc :
      (a b c : Dropped C S) → then_drop (then_drop a b) c ≡ then_drop a (then_drop b c)
  then_drop_assoc a b c =
      rw (append_assoc a.ended b.ended c.ended, append_assoc a.slots b.slots c.slots) refl

  abbrev pub unlinked : List C → Dropped C S → Dropped C S
  unlinked cs d = record d { state = unlink_all cs d.state }

  module _ (look : C → C) (due : C → Bool) (mark : C → C) (room : ℕ) where
    -- The connections of a list that are due, closed, and those that stay.
    abbrev pub dues : List C → List C
    dues [] = []
    dues (c ∷ cs) = if due (look c) then mark (look c) ∷ dues cs else dues cs

    abbrev pub stays : List C → List C
    stays [] = []
    stays (c ∷ cs) = if due (look c) then stays cs else look c ∷ stays cs

    -- All that a scan and the drops after it end.
    abbrev pub collected : Swept e → Dropped C S
    collected r = then_drop r.dropped (unref_all e r.garbage r.dropped.state)

    abbrev Sound : List C → List C → S → Swept e → Type 0
    Sound cs garbage s r =
        (r.kept ≡ stays cs)
        × (collected r ≡ unlinked (dues cs) (unref_all e (garbage ++ dues cs) s))

    keep-Sound :
        (c : C) (cs garbage : List C) (s : S)
        → due (look c) ≡ false
        → (r : Swept e) → Sound cs garbage s r
        → Sound (c ∷ cs) garbage s (keep e (look c) r)
    keep-Sound c cs garbage s h r (k, d) = rw h (ap (λ l. look c ∷ l) k, d)

    collect-Sound :
        (c : C) (cs garbage : List C) (s : S)
        → due (look c) ≡ true
        → (r : Swept e) → Sound cs (garbage ++ mark (look c) ∷ []) (unlink (mark (look c)) s) r
        → Sound (c ∷ cs) garbage s r
    collect-Sound c cs garbage s h r (k, d) =
        let m = mark (look c) in
        rw h (
          k,
          d
              ∙ rw
                  (
                    append_assoc garbage (m ∷ []) (dues cs),
                    unref_all-unlink (garbage ++ m ∷ dues cs) m s,
                  )
                  refl,
        )

    flush-Sound :
        (c : C) (cs garbage : List C) (s : S)
        → due (look c) ≡ true
        → let m = mark (look c) in
          let flushed = unref_all e garbage (unlink m s) in
          (r : Swept e)
          → Sound cs (m ∷ []) flushed.state r
          → Sound (c ∷ cs) garbage s (followed e flushed r)
    flush-Sound c cs garbage s h r (k, d) =
        let m = mark (look c) in
        let before = unref_all e garbage (unlink m s) in
        let after = unref_all e garbage s in
        rw h (
          k,
          then_drop_assoc before r.dropped (unref_all e r.garbage r.dropped.state)
              ∙ ap (λ x. then_drop before x) d
              ∙ rw
                  (
                    unref_all-unlink garbage m s,
                    unref_all-unlink (m ∷ dues cs) m after.state,
                    unref_all-append garbage (m ∷ dues cs) s,
                  )
                  refl,
        )

    sweep_step :
        (c : C) (cs garbage : List C) (s : S) (go fits : Bool)
        → due (look c) ≡ go
        → ltb (length garbage) room ≡ fits
        → let m = mark (look c) in
          let flushed = unref_all e garbage (unlink m s) in
          (if go
            then (if fits
                then sweep e look due mark room cs (garbage ++ m ∷ []) (unlink m s)
                else followed e flushed (sweep e look due mark room cs (m ∷ []) flushed.state))
            else keep e (look c) (sweep e look due mark room cs garbage s))
          ≡ sweep e look due mark room (c ∷ cs) garbage s
    unfolding sweep
    sweep_step c cs garbage s go fits h1 h2 = rw (h1, h2) refl

    sweep-Sound :
        (cs garbage : List C) (s : S) → Sound cs garbage s (sweep e look due mark room cs garbage s)
    unfolding sweep
    sweep-Sound [] garbage s = (refl, rw (append-nil garbage) refl)
    sweep-Sound (c ∷ cs) garbage s =
        let m = mark (look c) in
        let flushed = unref_all e garbage (unlink m s) in
        let r1 = sweep-Sound cs garbage s in
        let r2 = sweep-Sound cs (garbage ++ m ∷ []) (unlink m s) in
        let r3 = sweep-Sound cs (m ∷ []) flushed.state in
        elim (Bool-cases (due (look c))) [
          | inr stay ↦
              subst (λ r. Sound (c ∷ cs) garbage s r) (sweep_step c cs garbage s false _ stay refl)
                (keep-Sound c cs garbage s stay (sweep e look due mark room cs garbage s) r1)
          | inl go ↦ elim (Bool-cases (ltb (length garbage) room)) [
            | inl fits ↦
                subst (λ r. Sound (c ∷ cs) garbage s r)
                  (sweep_step c cs garbage s true true go fits)
                  (collect-Sound c cs garbage s go
                    (sweep e look due mark room cs (garbage ++ m ∷ []) (unlink m s)) r2)
            | inr full ↦
                subst (λ r. Sound (c ∷ cs) garbage s r)
                  (sweep_step c cs garbage s true false go full)
                  (flush-Sound c cs garbage s go
                    (sweep e look due mark room cs (m ∷ []) flushed.state) r3)
          ]
        ]

    -- A bin that has room for one and is not overfull never becomes overfull.
    sweep-room :
        (cs garbage : List C) (s : S)
        → 0 < room
        → length garbage ≤ room
        → length (sweep e look due mark room cs garbage s).garbage ≤ room
    unfolding sweep
    sweep-room [] garbage s pos h = h
    sweep-room (c ∷ cs) garbage s pos h =
        let m = mark (look c) in
        let flushed = unref_all e garbage (unlink m s) in
        elim (Bool-cases (due (look c))) [
          | inr stay ↦ rw stay (sweep-room cs garbage s pos h)
          | inl go ↦ elim (Bool-cases (ltb (length garbage) room)) [
            | inl fits ↦
                rw (go, fits)
                  (sweep-room cs (garbage ++ m ∷ []) (unlink m s) pos
                    (ground (arith, length-append {0} garbage (m ∷ []))))
            | inr full ↦ rw (go, full) (sweep-room cs (m ∷ []) flushed.state pos (omega arith))
          ]
        ]

    -- Whatever the size of the bin, if there is room for one: the scan leaves exactly the connections
    -- that are not due in the list; and with the drops of the bin after it, what has been dropped, what
    -- was given back for it and the state left are those of dropping everything that was in the bin and
    -- everything that is due, once each and in the order of the list, in one go. The bin is never
    -- overfull.
    pub sweep_lem :
        (cs garbage : List C) (s : S)
        → 0 < room
        → length garbage ≤ room
        → let r = sweep e look due mark room cs garbage s in
          (r.kept ≡ stays cs)
          × (collected r ≡ unlinked (dues cs) (unref_all e (garbage ++ dues cs) s))
          × (length r.garbage ≤ room)
    sweep_lem cs garbage s pos h =
        let (k, d) = sweep-Sound cs garbage s in (k, d, sweep-room cs garbage s pos h)
