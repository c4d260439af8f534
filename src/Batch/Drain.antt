-- ===== src/Batch/Drain.antt =====
-- The exit of a worker ends every connection of its list, in as many batches as it takes.
use mathlib.Core.List.{append-nil}
use g_proxy_pro.Base.{
  ℕ, zero, suc, ◌+◌, ◌≤◌, ◌<◌, ◌≡◌, refl, sym, ap, ◌∙◌, arith, inl, inr, Bool, some, List, [], ◌∷◌,
  ◌++◌, ltb, if◌then◌else◌, length, Bool-cases,
}
use g_proxy_pro.Batch.{Engine, unref_all, take_batch, drain}
use g_proxy_pro.Batch.Sweep.{unlink_all, then_drop, unlinked, unref_all-append, unref_all-unlink}

module _ {C S : Type 0} (e : Engine C S) where
  open e use {unref, unlink}

  unref_all-unlink_all :
      (cs ds : List C) (s : S)
      → unref_all e cs (unlink_all e ds s) ≡ unlinked e ds (unref_all e cs s)
  unref_all-unlink_all cs [] s = refl
  unref_all-unlink_all cs (d ∷ ds) s =
      unref_all-unlink_all cs ds (unlink d s)
      ∙ ap (λ r. unlinked e ds r) (unref_all-unlink e cs d s)

  unlink_all-append :
      (xs ys : List C) (s : S) → unlink_all e (xs ++ ys) s ≡ unlink_all e ys (unlink_all e xs s)
  unlink_all-append [] ys s = refl
  unlink_all-append (x ∷ xs) ys s = unlink_all-append xs ys (unlink x s)

  module _ (valid : C → Bool) (mark : C → C) where
    -- The connections of a list that are not poisoned, closed.
    abbrev pub live : List C → List C
    live [] = []
    live (c ∷ cs) = if valid c then mark c ∷ live cs else live cs

    live-append : (xs ys : List C) → live (xs ++ ys) ≡ live xs ++ live ys
    live-append [] ys = refl
    live-append (x ∷ xs) ys = elim (Bool-cases (valid x)) [
      | inl v ↦ rw v (ap (λ l. mark x ∷ l) (live-append xs ys))
      | inr v ↦ rw v (live-append xs ys)
    ]

    -- What one batch has passed, and how it ended.
    record Passed (n : ℕ) (cs : List C) (s : S) (r : List C × List C × S) : Type 0 where
      passed : List C
      parts : cs ≡ passed ++ r.1
      state : r.2 ≡ unlink_all e passed s
      batch : r.0 ≡ live passed
      room : length r.0 ≤ n
      done : length r.0 < n → r.1 ≡ []
      progress : length r.0 + length r.1 ≤ length cs

    take_batch-Passed :
        (n : ℕ) (cs : List C) (s : S) → Passed n cs s (take_batch e valid mark n cs s)
    unfolding take_batch
    take_batch-Passed zero cs s = record {
      passed = [];
      parts = refl;
      state = refl;
      batch = refl;
      room = omega arith;
      done = λ h. absurd (omega arith);
      progress = omega arith;
    }
    take_batch-Passed (suc n) [] s = record {
      passed = [];
      parts = refl;
      state = refl;
      batch = refl;
      room = omega arith;
      done = λ h. refl;
      progress = omega arith;
    }
    take_batch-Passed (suc n) (c ∷ cs) s = elim (Bool-cases (valid c)) [
      | inl v ↦
          let p = take_batch-Passed n cs (unlink c s) in
          rw v (record {
            passed = c ∷ p.passed;
            parts = ap (λ l. c ∷ l) p.parts;
            state = p.state;
            batch = rw v (ap (λ l. mark c ∷ l) p.batch);
            room = omega (arith, p.room);
            done = λ h. p.done (omega arith);
            progress = omega (arith, p.progress);
          })
      | inr v ↦
          let p = take_batch-Passed (suc n) cs (unlink c s) in
          rw v (record {
            passed = c ∷ p.passed;
            parts = ap (λ l. c ∷ l) p.parts;
            state = p.state;
            batch = rw v p.batch;
            room = p.room;
            done = p.done;
            progress = omega (arith, p.progress);
          })
    ]

    combine :
        (vs rest : List C) (s : S)
        → let d = unlinked e vs (unref_all e (live vs) s) in
          unlinked e rest (then_drop e d (unref_all e (live rest) d.state))
          ≡ unlinked e (vs ++ rest) (unref_all e (live (vs ++ rest)) s)
    combine vs rest s =
        let a = unref_all e (live vs) s in
        rw
          (
            live-append vs rest,
            unref_all-append e (live vs) (live rest) s,
            unlink_all-append vs rest (unref_all e (live rest) a.state).state,
            unref_all-unlink_all (live rest) vs a.state,
          )
          refl

    -- With more fuel than connections the exit comes to its end, whatever the size of a batch, if it is
    -- not 0: the list is empty, and what has been dropped, given back and left is as if every connection
    -- of the list that was not poisoned had been dropped once, in the order of the list, in one go.
    pub drain_lem :
        (fuel room : ℕ) (cs : List C) (s : S)
        → 0 < room
        → length cs < fuel
        → drain e valid mark fuel room cs s ≡ some ([], unlinked e cs (unref_all e (live cs) s))
    unfolding drain
    drain_lem zero room cs s pos enough = absurd (omega arith)
    drain_lem (suc fuel) room cs s pos enough =
        let r = take_batch e valid mark room cs s in
        let p = take_batch-Passed room cs s in
        let d = unref_all e r.0 r.2 in
        let first : d ≡ unlinked e p.passed (unref_all e (live p.passed) s) =
          ap (λ b. unref_all e b r.2) p.batch
          ∙ ap (λ t. unref_all e (live p.passed) t) p.state
          ∙ unref_all-unlink_all (live p.passed) p.passed s in
        elim (Bool-cases (ltb (length r.0) room)) [
          | inl last ↦
              let over = p.done (ground arith) in
              let all : cs ≡ p.passed =
                p.parts ∙ ap (λ l. p.passed ++ l) over ∙ append-nil p.passed in
              rw last (
                ap some (
                  ap (λ l. (l, d)) over
                  ∙ ap (λ x. ([], x))
                      (first ∙ ap (λ l. unlinked e l (unref_all e (live l) s)) (sym all))))
          | inr full ↦
              let ih = drain_lem fuel room r.1 d.state pos (ground (arith, p.progress)) in
              rw (full, ih)
                (ap
                    (λ x.
                      some ([], unlinked e r.1 (then_drop e x (unref_all e (live r.1) x.state))))
                    first
                  ∙ ap (λ x. some ([], x)) (combine p.passed r.1 s)
                  ∙ ap (λ l. some ([], unlinked e l (unref_all e (live l) s))) (sym p.parts))
        ]
