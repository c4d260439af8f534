-- ===== src/Dns/Relay.antt =====
-- Relaying a frame whose destination is a host name, app/src/main/cpp/simple-socks5.c: the worker never
-- waits for the resolver. It looks the name up in the cache, or claims a job, asks a resolver thread
-- and holds the frame; when the job is done it sends the frame on or drops it.
-- `sendto` and `inet_pton` are parameters. The worker's lock makes each walk over its sessions one step.
pub mod Clear
pub mod Drain
pub mod Defer
pub mod Route
use g_proxy_pro.Base.{
  ℕ, zero, suc, ◌+◌, ◌-◌, Bool, true, false, not, ◌&&◌, ◌||◌, Option, none, some, List, [], ◌∷◌,
  ◌++◌, ltb, leb, ◌==◌, length, if◌then◌else◌, ◌>>=◌, get_elem?, set, take, bytes_eq, read_bytes,
}
use g_proxy_pro.Proto.{atyp_domain}
use g_proxy_pro.Sockaddr.{Sockaddr, Pton, build_sockaddr, sockaddr_from_ip_port}
use g_proxy_pro.Event.Udp.{conn_magic}
use g_proxy_pro.Ring.{Ring, enqueue, dequeue}
use g_proxy_pro.Dns.{host_max, JobState, Job, Pend, job_find, job_alloc, pend_free_slot, hold_ok}
use g_proxy_pro.Dns.Cache.{CacheEntry, cache_lookup, cache_put}
use g_proxy_pro.Udp.{UdpConn}

-- A call of `sendto`.
pub record Datagram : Type 0 where
  pub fd : ℕ
  pub payload : List ℕ
  pub dst : Sockaddr

-- What `sendto` returned, `none` being -1.
abbrev pub Sendto : Type 0
Sendto = Datagram → Option ℕ

-- The counters `g_dns_st_..`, the bytes sent, and the calls of `sendto` so far, the last one last.
pub record Out : Type 0 where
  pub enqueued : ℕ
  pub ok : ℕ
  pub fail : ℕ
  pub qfull : ℕ
  pub jobfull : ℕ
  pub drop : ℕ
  pub replay : ℕ
  pub lost : ℕ
  pub tx_bytes : ℕ
  pub sent : List Datagram

-- `udp_dns_req_t`
pub record Req : Type 0 where
  pub worker_idx : ℕ
  pub job_idx : ℕ
  pub host : List ℕ

pub send_5g : Sendto → Option ℕ → List ℕ → Sockaddr → Out → Out
send_5g sendto none payload dst out = out
send_5g sendto (some fd) [] dst out = out
send_5g sendto (some fd) (b ∷ payload) dst out =
    let d : Datagram = record { fd = fd; payload = b ∷ payload; dst = dst } in
    let out1 : Out = record out { sent = out.sent ++ d ∷ [] } in
    elim (sendto d) [ none ↦ out1 | some n ↦ record out1 { tx_bytes = out1.tx_bytes + n } ]

-- A held frame whose name has been resolved: it is sent on, or lost if the session is closing.
flush_hit : Sendto → Sockaddr → Bool → Option ℕ → Pend → Out → Out
flush_hit sendto dst closed none p out = record out { lost = out.lost + 1 }
flush_hit sendto dst true (some n) p out = record out { lost = out.lost + 1 }
flush_hit sendto dst false (some n) p out =
    let out1 = send_5g sendto (some n) p.payload dst out in record out1 { replay = out1.replay + 1 }

-- One held frame of a session.
flush_pend : Sendto → List ℕ → Sockaddr → Bool → Option ℕ → Pend → Out → Pend × Out
flush_pend sendto host dst closed fd p out =
    if not p.used || not (bytes_eq p.host host)
    then (p, out)
    else (record p { used = false }, flush_hit sendto dst closed fd p out)

flush_pends : Sendto → List ℕ → Sockaddr → Bool → Option ℕ → List Pend → Out → List Pend × Out
flush_pends sendto host dst closed fd [] out = ([], out)
flush_pends sendto host dst closed fd (p ∷ ps) out =
    let (p', out1) = flush_pend sendto host dst closed fd p out in
    let (ps', out2) = flush_pends sendto host dst closed fd ps out1 in (p' ∷ ps', out2)

pub flush_pending : Sendto → List ℕ → Sockaddr → List UdpConn → Out → List UdpConn × Out
flush_pending sendto host dst [] out = ([], out)
flush_pending sendto host dst (u ∷ us) out =
    let (pend', out1) =
      if not (u.magic == conn_magic)
      then (u.pend, out)
      else flush_pends sendto host dst u.closed u.remote_udp_fd u.pend out in
    let (us', out2) = flush_pending sendto host dst us out1 in
    (record u { pend = pend' } ∷ us', out2)

drop_pends : List ℕ → List Pend → Out → List Pend × Out
drop_pends host [] out = ([], out)
drop_pends host (p ∷ ps) out =
    let hit = p.used && bytes_eq p.host host in
    let (ps', out') =
      drop_pends host ps (if hit then record out { drop = out.drop + 1 } else out) in
    ((if hit then record p { used = false } else p) ∷ ps', out')

pub drop_pending : List ℕ → List UdpConn → Out → List UdpConn × Out
drop_pending host [] out = ([], out)
drop_pending host (u ∷ us) out =
    let (pend', out1) =
      if not (u.magic == conn_magic) then (u.pend, out) else drop_pends host u.pend out in
    let (us', out2) = drop_pending host us out1 in (record u { pend = pend' } ∷ us', out2)

-- What `udp_dns_drain` works on besides the jobs.
pub record Worker : Type 0 where
  pub conns : List UdpConn
  pub cache : List CacheEntry
  pub out : Out
  pub fail_log_last : ℕ

-- What is done with a job that is done; the outer option is a read outside its port.
pub settle : Pton → Sendto → ℕ → Job → Worker → Option Worker
settle pton sendto now j w = do
  dst ← sockaddr_from_ip_port pton j.ip j.port
  some (elim dst [
    | some a ↦
        let (conns', out') = flush_pending sendto j.host a w.conns w.out in
        record w { cache = cache_put w.cache j.host a now; conns = conns'; out = out' }
    | none ↦
        let (conns', out') = drop_pending j.host w.conns w.out in
        record w { conns = conns'; out = out' }
  ])

give_up : ℕ → Job → Worker → Worker
give_up now j w =
    let (conns', out') = drop_pending j.host w.conns w.out in
    record w {
      fail_log_last = if leb (w.fail_log_last + 60) now then now else w.fail_log_last;
      conns = conns';
      out = out';
    }

drain_job : Pton → Sendto → ℕ → JobState → Job → Worker → Option (Job × Worker)
drain_job pton sendto now JobState.free j w = some (j, w)
drain_job pton sendto now JobState.inflight j w = some (j, w)
drain_job pton sendto now JobState.done_ok j w = do
  w' ← settle pton sendto now j w
  some (record j { state = JobState.free }, w')
drain_job pton sendto now JobState.done_fail j w =
    some (record j { state = JobState.free }, give_up now j w)

pub drain : Pton → Sendto → ℕ → List Job → Worker → Option (List Job × Worker)
drain pton sendto now [] w = some ([], w)
drain pton sendto now (j ∷ js) w = do
  (j', w1) ← drain_job pton sendto now j.state j w
  (js', w2) ← drain pton sendto now js w1
  some (j' ∷ js', w2)

-- What a frame that has to wait changes: the worker's jobs, the queue to the resolver threads, and the
-- session's held frames.
pub record Claimed : Type 0 where
  pub index : Option ℕ
  pub jobs : List Job
  pub queue : Ring Req
  pub out : Out

abbrev pub stored : List ℕ → List ℕ
stored host = take (host_max - 1) host

claim_new : ℕ → ℕ → List Job → Ring Req → Out → List ℕ → List ℕ → Option Claimed
claim_new widx ji jobs queue out host port = do
  j ← get_elem? jobs ji
  (room, queue') ← enqueue queue (record { worker_idx = widx; job_idx = ji; host = stored host })
  let j1 : Job = record j { state = JobState.inflight; host = stored host; port = port; ip = [] }
  some (
      if room
      then record {
        index = some ji;
        jobs = set jobs ji j1;
        queue = queue';
        out = record out { enqueued = out.enqueued + 1 };
      }
      else record {
        index = none;
        jobs = set jobs ji (record j1 { state = JobState.free });
        queue = queue';
        out = record out { qfull = out.qfull + 1 };
      })

claim : ℕ → List Job → Ring Req → Out → List ℕ → List ℕ → Option Claimed
claim widx jobs queue out host port = elim (job_find jobs host) [
  | some ji ↦ some (record { index = some ji; jobs = jobs; queue = queue; out = out })
  | none ↦ elim (job_alloc jobs) [
    | none ↦ some (record {
      index = none;
      jobs = jobs;
      queue = queue;
      out = record out { jobfull = out.jobfull + 1 };
    })
    | some ji ↦ claim_new widx ji jobs queue out host port
  ]
]

-- The frame is held if there is a job, it is not too long, and a place is free.
hold : Option ℕ → List Pend → Out → List ℕ → List ℕ → List ℕ → List Pend × Out
hold none pend out host port payload = (pend, record out { drop = out.drop + 1 })
hold (some ji) pend out host port payload =
    if hold_ok (length payload)
    then elim (pend_free_slot pend) [
      | some pi ↦ (
        set pend pi (record { used = true; host = stored host; port = port; payload = payload }),
        out,
      )
      | none ↦ (pend, record out { drop = out.drop + 1 })
    ]
    else (pend, record out { drop = out.drop + 1 })

pub record Deferred : Type 0 where
  pub jobs : List Job
  pub queue : Ring Req
  pub pend : List Pend
  pub out : Out

pub defer : ℕ → List Job → Ring Req → List Pend → Out → List ℕ → List ℕ → List ℕ → Option Deferred
defer widx jobs queue pend out host port payload = do
  c ← claim widx jobs queue out host port
  let (pend', out') = hold c.index pend c.out host port payload
  some (record { jobs = c.jobs; queue = c.queue; pend = pend'; out = out' })

-- A byte 0 inside the name ends the C string.
abbrev pub c_string : List ℕ → List ℕ
c_string [] = []
c_string (zero ∷ cs) = []
c_string (suc c ∷ cs) = suc c ∷ c_string cs

route_name :
    Sendto
    → ℕ
    → ℕ
    → Option ℕ
    → List CacheEntry
    → Deferred
    → List ℕ
    → List ℕ
    → List ℕ
    → Option Deferred
route_name sendto now widx fd cache s host port payload = elim (cache_lookup cache host now) [
  | some a ↦ some (record s { out = send_5g sendto fd payload a s.out })
  | none ↦ defer widx s.jobs s.queue s.pend s.out host port payload
]

-- `addr` is what stands in the datagram from the address on, with its length in front for a name.
pub route_frame :
    Sendto
    → ℕ
    → ℕ
    → Option ℕ
    → List CacheEntry
    → Deferred
    → ℕ
    → List ℕ
    → List ℕ
    → List ℕ
    → Option Deferred
route_frame sendto now widx fd cache s atyp addr port payload =
    if not (atyp == atyp_domain)
    then (do
      dst ← build_sockaddr atyp addr port
      some (elim dst [ none ↦ s | some a ↦ record s { out = send_5g sendto fd payload a s.out } ]))
    else (do
      dl ← get_elem? addr 0
      if dl == 0 || leb host_max dl then some s else (do
        name ← read_bytes addr 1 dl
        route_name sendto now widx fd cache s (c_string name) port payload))

-- A resolver thread: it takes a request if there is one, and ends only when there is none and it is told
-- to stop.
pub data Next : Type 0 where
  wait exit : Next
  take_req : Req → Ring Req → Next

pub resolver_next : Bool → Ring Req → Option Next
resolver_next stop queue =
    if queue.count == 0
    then some (if stop then exit else wait)
    else (do (req, queue') ← dequeue queue; some (take_req req queue'))

-- What it writes into the job once the Java side has answered: `rc == 0` and the text it gave.
pub resolver_done : Bool → List ℕ → Job → Out → Job × Out
resolver_done rc_ok ip j out =
    if rc_ok && (not (length ip == 0) && ltb (length ip) host_max)
    then (
      record j { state = JobState.done_ok; ip = take (host_max - 1) ip },
      record out { ok = out.ok + 1 },
    )
    else (record j { state = JobState.done_fail }, record out { fail = out.fail + 1 })
