-- ===== src/Dns/Relay/Drain.antt =====
-- A wake-up of the worker: no frame is forgotten.
use g_proxy_pro.Base.{
  ℕ, ◌+◌, ◌≤◌, ◌≡◌, refl, sym, ap, ◌∙◌, arith, Bool, true, false, Option, none, some, List, [], ◌∷◌,
  length,
}
use g_proxy_pro.Sockaddr.{Sockaddr, Pton, sockaddr_from_ip_port}
use g_proxy_pro.Sockaddr.Literal.{sockaddr_from_ip_port_lem}
use g_proxy_pro.Dns.{JobState, Job}
use g_proxy_pro.Dns.Cache.{cache_put}
use g_proxy_pro.Dns.Relay.{
  Sendto, Worker, flush_pending, drop_pending, settle, give_up, drain_job, drain,
}
use g_proxy_pro.Dns.Relay.Clear.{
  held_for, held, gone, flush_pending_lem, drop_pending_lem, held_for-clear,
}

-- From one worker to another the frames held and gone are as many, and no host has more held.
pub record Keeps (w w' : Worker) : Type 0 where
  pub ledger : held w'.conns + gone w'.out ≡ held w.conns + gone w.out
  pub none_more : (h : List ℕ) → held_for h w'.conns ≤ held_for h w.conns

Keeps-self : (w : Worker) → Keeps w w
Keeps-self w = record { ledger = refl; none_more = λ h. omega arith }

Keeps-trans : (u v w : Worker) → Keeps u v → Keeps v w → Keeps u w
Keeps-trans u v w a b = record {
  ledger = b.ledger ∙ a.ledger;
  none_more = λ h. omega (arith, a.none_more h, b.none_more h);
}

-- A done job's frames are all gone after it.
pub record Settles (host : List ℕ) (w w' : Worker) : Type 0 where
  pub keeps : Keeps w w'
  pub cleared : held_for host w'.conns ≡ 0

flushed-Settles :
    (sendto : Sendto) (host : List ℕ) (dst : Sockaddr) (now : ℕ) (w : Worker)
    → let (conns', out') = flush_pending sendto host dst w.conns w.out in
      Settles host w
        (record w { cache = cache_put w.cache host dst now; conns = conns'; out = out' })
flushed-Settles sendto host dst now w =
    let (e, d, n) = flush_pending_lem sendto host dst w.conns w.out in
    let (c, le, z) = held_for-clear host w.conns in
    record {
      keeps = record { ledger = rw e (omega (arith, d, n, c)); none_more = λ h. rw e (le h) };
      cleared = rw e z;
    }

dropped-Settles :
    (host : List ℕ) (log : ℕ) (w : Worker)
    → let (conns', out') = drop_pending host w.conns w.out in
      Settles host w (record w { fail_log_last = log; conns = conns'; out = out' })
dropped-Settles host log w =
    let (e, d, r, l) = drop_pending_lem host w.conns w.out in
    let (c, le, z) = held_for-clear host w.conns in
    record {
      keeps = record { ledger = rw e (omega (arith, d, r, l, c)); none_more = λ h. rw e (le h) };
      cleared = rw e z;
    }

abbrev pub is_done : JobState → Bool
is_done JobState.free = false
is_done JobState.inflight = false
is_done JobState.done_ok = true
is_done JobState.done_fail = true

abbrev pub All {ℓ κ} : {A : Type ℓ} → (A → Type κ) → List A → Type κ
All P [] = Unit
All P (x ∷ xs) = P x × All P xs

-- What one job does: it is not done afterwards, and if it was, its host's frames are gone.
pub record Drained (j : Job) (w : Worker) (j' : Job) (w' : Worker) : Type 0 where
  pub keeps : Keeps w w'
  pub not_done : is_done j'.state ≡ false
  pub cleared : is_done j.state ≡ true → held_for j.host w'.conns ≡ 0

untouched : (j : Job) (w : Worker) → is_done j.state ≡ false → Drained j w j w
untouched j w pending = record { keeps = Keeps-self w; not_done = pending; cleared = λ d. cc }

module _ (pton : Pton) (sendto : Sendto) (now : ℕ) where
  settle_lem :
      (j : Job) (w : Worker)
      → length j.port ≡ 2
      → (w' : Worker) × (settle pton sendto now j w ≡ some w') × Settles j.host w w'
  unfolding settle
  settle_lem j w two =
      let (r, e, _) = sockaddr_from_ip_port_lem pton j.ip j.port two in by_answer r e
    where
      by_answer :
          (r : Option Sockaddr)
          → sockaddr_from_ip_port pton j.ip j.port ≡ some r
          → (w' : Worker) × (settle pton sendto now j w ≡ some w') × Settles j.host w w'
      by_answer none e = (_, rw e refl, dropped-Settles j.host w.fail_log_last w)
      by_answer (some a) e = (_, rw e refl, flushed-Settles sendto j.host a now w)

  drain_job_lem :
      (st : JobState) (j : Job) (w : Worker)
      → length j.port ≡ 2
      → st ≡ j.state
      → (j' : Job) × (w' : Worker) × (drain_job pton sendto now st j w ≡ some (j', w'))
        × Drained j w j' w'
  unfolding drain_job give_up
  drain_job_lem JobState.free j w two same = (j, w, refl, untouched j w (ap is_done (sym same)))
  drain_job_lem JobState.inflight j w two same = (j, w, refl, untouched j w (ap is_done (sym same)))
  drain_job_lem JobState.done_ok j w two same =
      let (w', e, s) = settle_lem j w two in
      (
        record j { state = JobState.free },
        w',
        rw e refl,
        record { keeps = s.keeps; not_done = refl; cleared = λ d. s.cleared },
      )
  drain_job_lem JobState.done_fail j w two same =
      let s = dropped-Settles j.host _ w in
      (
        record j { state = JobState.free },
        give_up now j w,
        refl,
        record { keeps = s.keeps; not_done = refl; cleared = λ d. s.cleared },
      )

  abbrev Ported : Job → Type 0
  Ported j = length j.port ≡ 2

  -- If every job has a port of two bytes, a wake-up leaves no job done, whatever the answers were,
  -- reads nothing outside its arrays, and loses no frame silently: those held by sessions and those counted as dropped, sent on or lost are as many
  -- as before, no host has more frames held than before, and none is held for the host of a job that was
  -- done.
  pub drain_lem :
      (js : List Job) (w : Worker)
      → All Ported js
      → (js' : List Job) × (w' : Worker) × (drain pton sendto now js w ≡ some (js', w'))
        × Keeps w w'
        × All (λ j. is_done j.state ≡ false) js'
        × All (λ j. is_done j.state ≡ true → held_for j.host w'.conns ≡ 0) js
  unfolding drain
  drain_lem [] w ports = ([], w, refl, Keeps-self w, tt, tt)
  drain_lem (j ∷ js) w (two, ports) =
      let (j', w1, e1, d) = drain_job_lem j.state j w two refl in
      let (js', w2, e2, k, free, cleared) = drain_lem js w1 ports in
      (
        j' ∷ js',
        w2,
        rw (e1, e2) refl,
        Keeps-trans w w1 w2 d.keeps k,
        (d.not_done, free),
        ((λ done. omega (arith, k.none_more j.host, d.cleared done)), cleared),
      )
