-- ===== src/Pool/Service.antt =====
-- Every job taken on is served, in order, also after the pool was told to stop.
use mathlib.Core.List.{append_assoc, append-nil}
use native.Mathlib.Nat.{mod-eq_of_lt}
use g_proxy_pro.Base.{
  subst, ℕ, ◌<◌, ◌≡◌, refl, sym, ap, ◌∙◌, arith, true, false, some, List, [], ◌∷◌, ◌++◌, ◌||◌, leb,
  ◌==◌, Bool-cases, inl, inr, ◌⊎◌, length-replicate,
}
use g_proxy_pro.Ring.Fifo.{Holds, enqueue-Holds, dequeue-Holds}
use g_proxy_pro.Pool.{PoolJob, Pool, init, enqueue_job, wait, exit, serve, next, shutdown}

-- A run of a pool from its start: the jobs taken on, and those served, both oldest first.
pub data Run (fill : PoolJob) (cap : ℕ) : List PoolJob → List PoolJob → Pool → Type 0 where
  started : Run fill cap [] [] (init fill cap)
  accepted :
      {ins outs : List PoolJob} {p q : Pool} (fd cmd : ℕ)
      → Run fill cap ins outs p
      → enqueue_job p fd cmd ≡ some (true, q)
      → Run fill cap (ins ++ record { fd = fd; cmd = cmd } ∷ []) outs q
  refused :
      {ins outs : List PoolJob} {p q : Pool} (fd cmd : ℕ)
      → Run fill cap ins outs p
      → enqueue_job p fd cmd ≡ some (false, q)
      → Run fill cap ins outs q
  served :
      {ins outs : List PoolJob} {p q : Pool} (job : PoolJob)
      → Run fill cap ins outs p
      → next p ≡ some (serve job q)
      → Run fill cap ins (outs ++ job ∷ []) q
  stopped :
      {ins outs : List PoolJob} {p : Pool}
      → Run fill cap ins outs p
      → Run fill cap ins outs (shutdown p)

-- The jobs taken on are those served and those still in the queue, in this order.
pub record Serves (cap : ℕ) (ins outs : List PoolJob) (p : Pool) : Type 0 where
  pub queued : List PoolJob
  pub holds : Holds p.jobs queued
  pub in_order : ins ≡ outs ++ queued
  pub sized : p.jobs.cap ≡ cap

init-Holds : (fill : PoolJob) (cap : ℕ) → 0 < cap → Holds (init fill cap).jobs []
unfolding init
init-Holds fill cap some_room = record {
  whole = length-replicate cap fill;
  head_in = some_room;
  fits = omega arith;
  counted = refl;
  tail_at = sym (mod-eq_of_lt some_room);
  at = λ i lt. absurd (omega arith);
}

cap-init : (fill : PoolJob) (cap : ℕ) → (init fill cap).jobs.cap ≡ cap
unfolding init
cap-init fill cap = refl

module _ (fill : PoolJob) (cap : ℕ) where
  accepted-Serves :
      {ins outs : List PoolJob} {p q : Pool} (fd cmd : ℕ)
      → Serves cap ins outs p
      → enqueue_job p fd cmd ≡ some (true, q)
      → Serves cap (ins ++ record { fd = fd; cmd = cmd } ∷ []) outs q
  unfolding enqueue_job
  accepted-Serves {ins} {outs} {p} {q} fd cmd v e =
      elim (Bool-cases (p.stop || leb p.jobs.cap p.jobs.count)) [
        | inl no_room ↦ let e' = rw no_room at e in absurd (ground arith)
        | inr room ↦
            let job : PoolJob = record { fd = fd; cmd = cmd } in
            let e' = rw room at e in
            elim (enqueue-Holds p.jobs v.queued job v.holds) [
              | inl (_, full) ↦ let e'' = rw full at e' in absurd (ground arith)
              | inr (_, (r, done, h, same)) ↦
                  let e'' = rw done at e' in
                  let at_q : record p { jobs = r } ≡ q = cc in
                  subst (λ x. Serves cap (ins ++ job ∷ []) outs x) at_q
                    (record {
                      queued = v.queued ++ job ∷ [];
                      holds = h;
                      in_order =
                          ap (λ l. l ++ job ∷ []) v.in_order
                          ∙ append_assoc outs v.queued (job ∷ []);
                      sized = same ∙ v.sized;
                    })
            ]
      ]

  refused-Serves :
      {ins outs : List PoolJob} {p q : Pool} (fd cmd : ℕ)
      → Serves cap ins outs p
      → enqueue_job p fd cmd ≡ some (false, q)
      → Serves cap ins outs q
  unfolding enqueue_job
  refused-Serves {ins} {outs} {p} {q} fd cmd v e =
      elim (Bool-cases (p.stop || leb p.jobs.cap p.jobs.count)) [
        | inl no_room ↦
            let e' = rw no_room at e in
            let at_q : p ≡ q = cc in subst (λ x. Serves cap ins outs x) at_q v
        | inr room ↦
            let job : PoolJob = record { fd = fd; cmd = cmd } in
            let e' = rw room at e in
            elim (enqueue-Holds p.jobs v.queued job v.holds) [
              | inl (_, full) ↦
                  let e'' = rw full at e' in
                  let at_q : p ≡ q = cc in subst (λ x. Serves cap ins outs x) at_q v
              | inr (_, (r, done, h, same)) ↦ let e'' = rw done at e' in absurd (ground arith)
            ]
      ]

  -- What a thread does next, by what is in the queue.
  abbrev pub Chooses : List PoolJob → List PoolJob → Pool → Type 0
  Chooses ins outs p =
      ((next p ≡ some wait) × (p.stop ≡ false) × (ins ≡ outs))
      ⊎ (((next p ≡ some exit) × (p.stop ≡ true) × (ins ≡ outs))
          ⊎ ((job : PoolJob) × (q : Pool) × (next p ≡ some (serve job q))
              × Serves cap ins (outs ++ job ∷ []) q))

  Serves-Chooses : {ins outs : List PoolJob} {p : Pool} → Serves cap ins outs p → Chooses ins outs p
  unfolding next
  Serves-Chooses {ins} {outs} {p} v = by_queue v.queued v.holds v.in_order
    where
      by_queue : (xs : List PoolJob) → Holds p.jobs xs → ins ≡ outs ++ xs → Chooses ins outs p
      by_queue [] h e = elim (Bool-cases p.stop) [
        | inl told ↦ inr (inl (ground (arith, h.counted, told), told, e ∙ append-nil outs))
        | inr going ↦ inl (ground (arith, h.counted, going), going, e ∙ append-nil outs)
      ]
      by_queue (job ∷ xs) h e =
          let (r, got, h', same) = dequeue-Holds p.jobs job xs h in
          let some_left : (p.jobs.count == 0) ≡ false = ground (arith, h.counted) in
          inr (
            inr (
              job,
              record p { jobs = r },
              rw (some_left, got) refl,
              record {
                queued = xs;
                holds = h';
                in_order = e ∙ sym (append_assoc outs (job ∷ []) xs);
                sized = same ∙ v.sized;
              },
            ))

  served-Serves :
      {ins outs : List PoolJob} {p q : Pool} (job : PoolJob)
      → Serves cap ins outs p
      → next p ≡ some (serve job q)
      → Serves cap ins (outs ++ job ∷ []) q
  served-Serves {ins} {outs} {p} {q} job v e = elim (Serves-Chooses v) [
    | inl (f, _, _) ↦ absurd cc
    | inr (inl (f, _, _)) ↦ absurd cc
    | inr (inr (job', q', f, w)) ↦
        let ej : job' ≡ job = cc in
        let eq : q' ≡ q = cc in
        subst (λ x. Serves cap ins (outs ++ job ∷ []) x) eq
          (subst (λ x. Serves cap ins (outs ++ x ∷ []) q') ej w)
  ]

  Run-Serves :
      {ins outs : List PoolJob} {p : Pool}
      → 0 < cap
      → Run fill cap ins outs p
      → Serves cap ins outs p
  unfolding shutdown
  Run-Serves some_room started = record {
    queued = [];
    holds = init-Holds fill cap some_room;
    in_order = refl;
    sized = cap-init fill cap;
  }
  Run-Serves some_room (accepted fd cmd r e) = accepted-Serves fd cmd (Run-Serves some_room r) e
  Run-Serves some_room (refused fd cmd r e) = refused-Serves fd cmd (Run-Serves some_room r) e
  Run-Serves some_room (served job r e) = served-Serves job (Run-Serves some_room r) e
  Run-Serves some_room (stopped r) =
      let v = Run-Serves some_room r in
      record { queued = v.queued; holds = v.holds; in_order = v.in_order; sized = v.sized }

  -- In a run from the start of a pool with room for a job at least, in which jobs are taken on, refused
  -- and served and the pool may be told to stop at any time, the jobs taken on are those served and
  -- those still queued, in this order. A thread waits only if all have been served and the pool goes
  -- on, and it ends only if all have been served and the pool was told to stop; otherwise it serves the
  -- oldest.
  pub Run-in_order :
      {ins outs : List PoolJob} {p : Pool}
      → 0 < cap
      → Run fill cap ins outs p
      → Serves cap ins outs p × Chooses ins outs p
  Run-in_order some_room r = let v = Run-Serves some_room r in (v, Serves-Chooses v)
