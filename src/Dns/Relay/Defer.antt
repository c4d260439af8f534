-- ===== src/Dns/Relay/Defer.antt =====
-- A frame that has to wait: what is asked of the resolver threads, and where the frame goes.
use mathlib.Core.Option.{some_inj}
use native.Mathlib.Decide.{ℕ_discrete}
use g_proxy_pro.Base.{◌≢◌, ◌↔◌, ◌≤◌, ◌<◌, false, sym, ap, ◌∙◌, get_elem?-set_ne}
use g_proxy_pro.Base.{
  ℕ, ◌+◌, ◌≡◌, refl, arith, true, Option, none, some, List, [], ◌∷◌, ◌++◌, length, Option-cases,
  Bool-cases, inl, inr, ◌⊎◌, get_elem?, set, length-set, get_elem?-set_self, get_elem?-lt,
}
use g_proxy_pro.Ring.{Ring}
use g_proxy_pro.Ring.Fifo.{Holds, enqueue-Holds}
use g_proxy_pro.Dns.{
  is_free, JobState, Job, Pend, pend_count, job_find, job_alloc, pend_free_slot, hold_ok,
}
use g_proxy_pro.Dns.FreeSlot.{job_find_lem, job_alloc_lem, pend_count-pend_free_slot}
use g_proxy_pro.Dns.Relay.{Out, Req, Claimed, Deferred, stored, claim_new, claim, hold, defer}
use g_proxy_pro.Dns.Relay.Clear.{gone}

-- The frame is held, in a place that was free, and it is so for a job that is there; or it is counted
-- as dropped and nothing is held for it, because there is no job, it has no payload or more than 1280
-- bytes, or no place is free.
abbrev pub Placed : Option ℕ → List Pend → Out → List ℕ → List ℕ → List ℕ → List Pend → Out → Type 0
Placed index pend out host port payload pend' out' =
    (((ji : ℕ) × (k : ℕ) × (index ≡ some ji)
        × (0 < length payload)
        × (length payload ≤ 1280)
        × (pend_free_slot pend ≡ some k)
        × (pend'
            ≡ set pend k
                (record { used = true; host = stored host; port = port; payload = payload }))
        × (out'.drop ≡ out.drop))
      ⊎ (((index ≡ none)
            ⊎ (((length payload ≡ 0) ⊎ (1280 < length payload)) ⊎ (pend_free_slot pend ≡ none)))
          × (pend' ≡ pend)
          × (out'.drop ≡ out.drop + 1)))
    × (out'.replay ≡ out.replay)
    × (out'.lost ≡ out.lost)

hold_lem :
    (index : Option ℕ) (pend : List Pend) (out : Out) (host port payload : List ℕ)
    → let (pend', out') = hold index pend out host port payload in
      (pend_count pend' + gone out' ≡ pend_count pend + gone out + 1)
      × (length pend' ≡ length pend)
      × Placed index pend out host port payload pend' out'
unfolding hold hold_ok
hold_lem none pend out host port payload =
    (omega arith, refl, (inr (inl refl, refl, refl), refl, refl))
hold_lem (some ji) pend out host port payload = elim (Bool-cases (hold_ok (length payload))) [
  | inr long ↦
      rw (long, hold) (omega arith, refl, (inr (inr (inl (outside long)), refl, refl), refl, refl))
  | inl fits ↦ elim (Option-cases (pend_free_slot pend)) [
    | inl full ↦
        rw (fits, full, hold) (omega arith, refl, (inr (inr (inr refl), refl, refl), refl, refl))
    | inr (k, e) ↦
        let c =
          pend_count-pend_free_slot pend k
            (record { used = true; host = stored host; port = port; payload = payload }) e refl in
        rw (fits, e, hold)
          (
            omega (arith, c),
            length-set pend k _,
            (inl (ji, k, refl, (inside fits).0, (inside fits).1, refl, refl, refl), refl, refl),
          )
  ]
]
  where
    outside : hold_ok (length payload) ≡ false → (length payload ≡ 0) ⊎ (1280 < length payload)
    outside h = ground arith

    inside : hold_ok (length payload) ≡ true → (0 < length payload) × (length payload ≤ 1280)
    inside h = ground arith

-- The jobs in use are the same.
abbrev pub SameBusy : List Job → List Job → Type 0
SameBusy jobs jobs' =
    (i : ℕ) (j : Job)
    → is_free j.state ≡ false
    → (get_elem? jobs' i ≡ some j) ↔ (get_elem? jobs i ≡ some j)

-- Either nothing was asked for, and the jobs in use are those of before; or a free job was claimed for
-- the host, a request for it stands at the end of the queue, and the other jobs are as they were.
abbrev pub Asked :
    ℕ → List Job → List Req → List ℕ → List ℕ → Option ℕ → List Job → Ring Req → Type 0
Asked widx jobs reqs host port index jobs' queue' =
    (Holds queue' reqs × SameBusy jobs jobs')
    ⊎ ((ji : ℕ) × (j : Job) × (index ≡ some ji)
        × (job_alloc jobs ≡ some ji)
        × Holds queue' (reqs ++ record { worker_idx = widx; job_idx = ji; host = stored host } ∷ [])
        × (get_elem? jobs' ji ≡ some j)
        × (j.state ≡ JobState.inflight)
        × (j.host ≡ stored host)
        × (j.port ≡ port)
        × ((i : ℕ) → ji ≢ i → get_elem? jobs' i ≡ get_elem? jobs i))

-- The job that a frame waits for is in use, for its host.
abbrev pub ForHost : Option ℕ → List ℕ → List Job → Type 0
ForHost index host jobs' =
    (index ≡ none)
    ⊎ ((ji : ℕ) × (j : Job) × (index ≡ some ji)
        × (get_elem? jobs' ji ≡ some j)
        × (is_free j.state ≡ false)
        × ((j.host ≡ host) ⊎ (j.host ≡ stored host)))

-- A free job with another free one in its place.
free-SameBusy :
    (jobs : List Job) (ji : ℕ) (j f : Job)
    → get_elem? jobs ji ≡ some j
    → is_free j.state ≡ true
    → is_free f.state ≡ true
    → SameBusy jobs (set jobs ji f)
free-SameBusy jobs ji j f at free freed i b busy = elim (ℕ_discrete ji i) [
  | no other ↦ let same = get_elem?-set_ne jobs ji i f other in ((λ h. sym same ∙ h), λ h. same ∙ h)
  | yes here ↦
      let now = get_elem?-set_self jobs ji f (get_elem?-lt jobs ji at) in
      (
        (λ h.
            absurd
              (clash f b freed busy (sym now ∙ ap (λ k. get_elem? (set jobs ji f) k) here ∙ h))),
        λ h. absurd (clash j b free busy (sym at ∙ ap (λ k. get_elem? jobs k) here ∙ h)),
      )
]
  where
    clash : (x y : Job) → is_free x.state ≡ true → is_free y.state ≡ false → some x ≡ some y → ⊥
    clash x y t f e = absurd (cc (t, f, ap (λ j. is_free j.state) (some_inj.0 e)))

-- The counters of frames that are gone.
abbrev SameGone : Out → Out → Type 0
SameGone out out' = (out'.drop ≡ out.drop) × (out'.replay ≡ out.replay) × (out'.lost ≡ out.lost)

counted_from :
    (index : Option ℕ) (pend : List Pend) (out mid : Out) (host port payload : List ℕ)
    (pend' : List Pend) (out' : Out)
    → SameGone out mid
    → Placed index pend mid host port payload pend' out'
    → Placed index pend out host port payload pend' out'
counted_from index pend out mid host port payload pend' out' (g1, g2, g3)
      (inl (ji, k, at, low, high, place, put, d), r, l) =
    (inl (ji, k, at, low, high, place, put, d ∙ g1), r ∙ g2, l ∙ g3)
counted_from index pend out mid host port payload pend' out' (g1, g2, g3)
      (inr (why, same, d), r, l) =
    (inr (why, same, d ∙ ap (λ n. n + 1) g1), r ∙ g2, l ∙ g3)

module _ (widx : ℕ) (jobs : List Job) (queue : Ring Req) (reqs : List Req) (out : Out)
    (host port : List ℕ) (h : Holds queue reqs) where
  claim_new_lem :
      (ji : ℕ)
      → job_alloc jobs ≡ some ji
      → (c : Claimed) × (claim_new widx ji jobs queue out host port ≡ some c)
        × SameGone out c.out
        × Asked widx jobs reqs host port c.index c.jobs c.queue
        × ForHost c.index host c.jobs
  unfolding claim_new
  claim_new_lem ji free =
      let (j, at, unused) = job_alloc_lem jobs ji free in
      let req : Req = record { worker_idx = widx; job_idx = ji; host = stored host } in
      elim (enqueue-Holds queue reqs req h) [
        | inl (_, full) ↦
            let c : Claimed = record {
              index = none;
              jobs =
                  set jobs ji
                    (record j { state = JobState.free; host = stored host; port = port; ip = [] });
              queue = queue;
              out = record out { qfull = out.qfull + 1 };
            } in
            (
              c,
              rw (at, full) refl,
              (refl, refl, refl),
              inl (h, free-SameBusy jobs ji j _ at unused refl),
              inl refl,
            )
        | inr (_, (queue', done, held, _)) ↦
            let j1 : Job = record j {
              state = JobState.inflight;
              host = stored host;
              port = port;
              ip = [];
            } in
            let c : Claimed = record {
              index = some ji;
              jobs = set jobs ji j1;
              queue = queue';
              out = record out { enqueued = out.enqueued + 1 };
            } in
            (
              c,
              rw (at, done) refl,
              (refl, refl, refl),
              inr (
                ji,
                j1,
                refl,
                free,
                held,
                get_elem?-set_self jobs ji j1 (get_elem?-lt jobs ji at),
                refl,
                refl,
                refl,
                λ i other. get_elem?-set_ne jobs ji i j1 other,
              ),
              inr (
                ji,
                j1,
                refl,
                get_elem?-set_self jobs ji j1 (get_elem?-lt jobs ji at),
                refl,
                inr refl,
              ),
            )
      ]

  claim_lem :
      (c : Claimed) × (claim widx jobs queue out host port ≡ some c)
      × SameGone out c.out
      × Asked widx jobs reqs host port c.index c.jobs c.queue
      × ForHost c.index host c.jobs
  unfolding claim
  claim_lem = elim (Option-cases (job_find jobs host)) [
    | inr (ji, found) ↦
        let c : Claimed = record { index = some ji; jobs = jobs; queue = queue; out = out } in
        let (j, at, busy, same) = job_find_lem jobs host ji found in
        (
          c,
          rw (found, claim) refl,
          (refl, refl, refl),
          inl (h, unchanged),
          inr (ji, j, refl, at, busy, inl same),
        )
    | inl new ↦ elim (Option-cases (job_alloc jobs)) [
      | inl full ↦
          let c : Claimed = record {
            index = none;
            jobs = jobs;
            queue = queue;
            out = record out { jobfull = out.jobfull + 1 };
          } in
          (c, rw (new, full, claim) refl, (refl, refl, refl), inl (h, unchanged), inl refl)
      | inr (ji, free) ↦
          let (c, e, g, a, f) = claim_new_lem ji free in (c, rw (new, free, claim) e, g, a, f)
    ]
  ]
    where
      unchanged : SameBusy jobs jobs
      unchanged i j busy = ((λ h. h), λ h. h)

  pub defer_lem :
      (pend : List Pend) (payload : List ℕ)
      → (d : Deferred) × (defer widx jobs queue pend out host port payload ≡ some d)
        × (pend_count d.pend + gone d.out ≡ pend_count pend + gone out + 1)
        × (length d.pend ≡ length pend)
        × ((index : Option ℕ) × Asked widx jobs reqs host port index d.jobs d.queue
            × ForHost index host d.jobs
            × Placed index pend out host port payload d.pend d.out)
  unfolding defer
  defer_lem pend payload =
      let (c, e, (g1, g2, g3), a, f) = claim_lem in
      let (n, len, p) = hold_lem c.index pend c.out host port payload in
      let (pend', out') = hold c.index pend c.out host port payload in
      let d : Deferred = record { jobs = c.jobs; queue = c.queue; pend = pend'; out = out' } in
      (
        d,
        rw e refl,
        omega (arith, n, g1, g2, g3),
        len,
        (
          c.index,
          a,
          f,
          counted_from c.index pend out c.out host port payload pend' out' (g1, g2, g3) p,
        ),
      )
