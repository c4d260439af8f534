-- ===== src/Dns/FreeSlot.antt =====
-- The first free place, of jobs and of held frames.
use mathlib.Core.Option.{some_inj}
use g_proxy_pro.Base.{false, bytes_eq, bytes_eq_sound}
use g_proxy_pro.Base.{
  ℕ, suc, ◌+◌, ◌≡◌, refl, ap, ◌∙◌, arith, true, some, List, [], ◌∷◌, Bool-cases, inl, inr,
  get_elem?, set,
}
use g_proxy_pro.Dns.{
  Job, Pend, is_free, alloc_from, find_from, job_find, job_alloc, pend_count, free_slot_from,
  pend_free_slot,
}

alloc_from_lem :
    (jobs : List Job) (i k : ℕ)
    → alloc_from jobs i ≡ some k
    → (n : ℕ) × (j : Job) × (k ≡ i + n) × (get_elem? jobs n ≡ some j) × (is_free j.state ≡ true)
unfolding alloc_from
alloc_from_lem [] i k e = absurd cc
alloc_from_lem (j ∷ jobs) i k e = elim (Bool-cases (is_free j.state)) [
  | inl free ↦ (0, j, ground (arith, free), refl, free)
  | inr busy ↦
      let (n, j', at, found, f) = alloc_from_lem jobs (suc i) k (rw busy at e) in
      (suc n, j', omega arith, found, f)
]

-- An allocated index is that of a free job.
pub job_alloc_lem :
    (jobs : List Job) (k : ℕ)
    → job_alloc jobs ≡ some k
    → (j : Job) × (get_elem? jobs k ≡ some j) × (is_free j.state ≡ true)
unfolding job_alloc
job_alloc_lem jobs k e =
    let (n, j, at, found, free) = alloc_from_lem jobs 0 k e in
    (j, ap (λ m. get_elem? jobs m) (at ∙ omega arith) ∙ found, free)

find_from_lem :
    (jobs : List Job) (host : List ℕ) (i k : ℕ)
    → find_from jobs host i ≡ some k
    → (n : ℕ) × (j : Job) × (k ≡ i + n)
      × (get_elem? jobs n ≡ some j)
      × (is_free j.state ≡ false)
      × (j.host ≡ host)
unfolding find_from
find_from_lem [] host i k e = absurd cc
find_from_lem (j ∷ jobs) host i k e = elim (Bool-cases (is_free j.state)) [
  | inl free ↦
      let (n, j', at, found, f, h) = find_from_lem jobs host (suc i) k (rw free at e) in
      (suc n, j', omega arith, found, f, h)
  | inr busy ↦ elim (Bool-cases (bytes_eq j.host host)) [
    | inl same ↦
        let here : some i ≡ some k = rw (busy, same) at e in
        (0, j, omega (arith, some_inj.0 here), refl, busy, bytes_eq_sound j.host host same)
    | inr other ↦
        let (n, j', at, found, f, h) = find_from_lem jobs host (suc i) k (rw (busy, other) at e) in
        (suc n, j', omega arith, found, f, h)
  ]
]

-- The job that is found is in use, for the host.
pub job_find_lem :
    (jobs : List Job) (host : List ℕ) (k : ℕ)
    → job_find jobs host ≡ some k
    → (j : Job) × (get_elem? jobs k ≡ some j) × (is_free j.state ≡ false) × (j.host ≡ host)
unfolding job_find
job_find_lem jobs [] k e = absurd cc
job_find_lem jobs (c ∷ host) k e =
    let (n, j, at, found, busy, same) = find_from_lem jobs (c ∷ host) 0 k e in
    (j, ap (λ m. get_elem? jobs m) (at ∙ omega arith) ∙ found, busy, same)

pend_count-set :
    (ps : List Pend) (i k : ℕ) (p : Pend)
    → free_slot_from ps i ≡ some k
    → p.used ≡ true
    → (n : ℕ) × (k ≡ i + n) × (pend_count (set ps n p) ≡ pend_count ps + 1)
unfolding free_slot_from pend_count
pend_count-set [] i k p e used = absurd cc
pend_count-set (q ∷ ps) i k p e used = elim (Bool-cases q.used) [
  | inr free ↦ (0, ground (arith, free), rw (used, free) refl)
  | inl busy ↦
      let (n, at, c) = pend_count-set ps (suc i) k p (rw busy at e) used in
      (suc n, omega arith, rw busy (omega (arith, c)))
]

-- Putting a frame into the free place found makes one more.
pub pend_count-pend_free_slot :
    (ps : List Pend) (k : ℕ) (p : Pend)
    → pend_free_slot ps ≡ some k
    → p.used ≡ true
    → pend_count (set ps k p) ≡ pend_count ps + 1
unfolding pend_free_slot
pend_count-pend_free_slot ps k p e used =
    let (n, at, c) = pend_count-set ps 0 k p e used in
    ap (λ m. pend_count (set ps m p)) (at ∙ omega arith) ∙ c
