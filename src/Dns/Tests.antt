-- ===== src/Dns/Tests.antt =====
-- A session that waits for the name "h", and its worker when the answer comes.
use g_proxy_pro.Base.{
  read_bytes, ◌++◌, ◌≤◌, bytes_eq, ℕ, ◌+◌, ◌<◌, ◌≡◌, ◌≢◌, refl, arith, true, false, none, some,
  List, [], ◌∷◌, length, get_elem?,
}
use g_proxy_pro.Proto.{atyp_domain}
use g_proxy_pro.Sockaddr.{Sockaddr, Pton, sockaddr_from_ip_port}
use g_proxy_pro.Event.Udp.{conn_magic}
use g_proxy_pro.Ring.{Ring}
use g_proxy_pro.Dns.{JobState, Job, Pend}
use g_proxy_pro.Dns.Cache.{cache_find, CacheEntry, ttl_sec, idle, cache_lookup, cache_put}
use g_proxy_pro.Dns.Cache.Answers.{cache_lookup-cache_put}
use g_proxy_pro.Dns.Relay.{
  Sendto, Out, Req, Worker, Deferred, settle, send_5g, drain, c_string, route_frame,
}
use g_proxy_pro.Dns.Relay.Clear.{held_for}
use g_proxy_pro.Dns.Relay.Drain.{Keeps, All, is_done, drain_lem}
use g_proxy_pro.Dns.Relay.Route.{settled_port}
use g_proxy_pro.Udp.{UdpConn, wiped}

abbrev addr : Sockaddr
addr = record { is_v6 = false; addr = 1 ∷ 2 ∷ 3 ∷ 4 ∷ []; port = 1 ∷ 187 ∷ [] }

abbrev cached : CacheEntry
cached = record { host = 103 ∷ []; sa = addr; expire = 50; used = true }

abbrev cache : List CacheEntry
cache = cached ∷ record cached { expire = 5 } ∷ []

not_there : cache_lookup cache (104 ∷ []) 9 ≡ none
unfolding cache_lookup cache_find bytes_eq
not_there = refl

cache_example :
    (10 < 9 + ttl_sec → cache_lookup (cache_put cache (104 ∷ []) addr 9) (104 ∷ []) 10 ≡ some addr)
    × ((j : ℕ) (old : CacheEntry) (other : List ℕ)
        → get_elem? cache j ≡ some old
        → idle old 9 ≡ true
        → (104 ∷ []) ≢ other
        → cache_lookup (cache_put cache (104 ∷ []) addr 9) other 10 ≡ cache_lookup cache other 10)
cache_example =
    cache_lookup-cache_put cache 104 [] addr 9 10 (omega arith) (omega arith) not_there
      (omega arith)

abbrev pton : Pton
pton = record { v6 = λ s. none; v4 = λ s. some (1 ∷ 2 ∷ 3 ∷ 4 ∷ []) }

abbrev sendto : Sendto
sendto d = some (length d.payload)

abbrev out : Out
out = record {
  enqueued = 1;
  ok = 1;
  fail = 0;
  qfull = 0;
  jobfull = 0;
  drop = 0;
  replay = 0;
  lost = 0;
  tx_bytes = 0;
  sent = [];
}

abbrev waiting : Pend
waiting = record { used = true; host = 104 ∷ []; port = 1 ∷ 187 ∷ []; payload = 9 ∷ 9 ∷ [] }

abbrev session : UdpConn
session = record (wiped 1 0) {
  magic = conn_magic;
  remote_udp_fd = some 7;
  pend = waiting ∷ record waiting { used = false } ∷ [];
}

abbrev answered : Job
answered = record { state = JobState.done_ok; host = 104 ∷ []; port = 1 ∷ 187 ∷ []; ip = 49 ∷ [] }

abbrev worker : Worker
worker = record { conns = session ∷ []; cache = cache; out = out; fail_log_last = 0 }

drain_example :
    (js' : List Job) × (w' : Worker) × (drain pton sendto 9 (answered ∷ []) worker ≡ some (js', w'))
    × Keeps worker w'
    × All (λ j. is_done j.state ≡ false) js'
    × All (λ j. is_done j.state ≡ true → held_for j.host w'.conns ≡ 0) (answered ∷ [])
drain_example = drain_lem pton sendto 9 (answered ∷ []) worker (refl, tt)

abbrev no_req : Req
no_req = record { worker_idx = 0; job_idx = 0; host = [] }

abbrev queue : Ring Req
queue = record { items = no_req ∷ no_req ∷ []; cap = 2; head = 0; tail = 0; count = 0 }

abbrev jobs : List Job
jobs = record answered { state = JobState.free } ∷ []

abbrev state : Deferred
state = record { jobs = jobs; queue = queue; pend = session.pend; out = out }

answer : sockaddr_from_ip_port pton answered.ip answered.port ≡ some (some addr)
unfolding sockaddr_from_ip_port read_bytes
answer = refl

settled_example :
    (w' : Worker) × (settle pton sendto 9 answered worker ≡ some w')
    × (addr.port ≡ 1 ∷ 187 ∷ [])
    × ((name rest port payload : List ℕ)
        → 0 < length name
        → length name ≤ 255
        → c_string name ≡ 104 ∷ []
        → route_frame sendto 30 0
            (some 7)
            w'.cache
            state
            atyp_domain
            (length name ∷ (name ++ rest))
            port
            payload
          ≡ some (record state { out = send_5g sendto (some 7) payload addr state.out }))
settled_example =
    settled_port pton sendto 9 30 0 (some 7) answered worker state addr 104 [] refl (omega arith)
      refl (omega arith) not_there answer (omega arith) (omega arith)
