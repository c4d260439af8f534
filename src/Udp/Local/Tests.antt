-- ===== src/Udp/Local/Tests.antt =====
-- A datagram of the host that opened the session and one of another host.
use g_proxy_pro.Base.{ℕ, false, some, List, [], ◌∷◌, replicate}
use g_proxy_pro.Ring.{Ring}
use g_proxy_pro.Sockaddr.{Sockaddr}
use g_proxy_pro.Dns.Relay.{Out, Req, Deferred}
use g_proxy_pro.Udp.{wiped}
use g_proxy_pro.Udp.Remote.{Arrival}
use g_proxy_pro.Udp.Local.{Local}

abbrev queue : Ring Req
queue = record {
  items = replicate 2 (record { worker_idx = 0; job_idx = 0; host = [] });
  cap = 2;
  head = 0;
  tail = 0;
  count = 0;
}

abbrev out : Out
out = record {
  enqueued = 0;
  ok = 0;
  fail = 0;
  qfull = 0;
  jobfull = 0;
  drop = 0;
  replay = 0;
  lost = 0;
  tx_bytes = 0;
  sent = [];
}

abbrev deferred : Deferred
deferred = record { jobs = []; queue = queue; pend = []; out = out }

abbrev host : ℕ → Sockaddr
host n = record { is_v6 = false; addr = 10 ∷ 0 ∷ 0 ∷ n ∷ []; port = 31 ∷ 144 ∷ [] }

abbrev arrivals : List Arrival
arrivals =
    record { bytes = 0 ∷ 0 ∷ 0 ∷ 1 ∷ 8 ∷ 8 ∷ 8 ∷ 8 ∷ 0 ∷ 53 ∷ 7 ∷ []; src = host 2 }
    ∷ record { bytes = 0 ∷ 0 ∷ 0 ∷ 1 ∷ 8 ∷ 8 ∷ 8 ∷ 8 ∷ 0 ∷ 53 ∷ 9 ∷ []; src = host 3 }
    ∷ []

buf : List ℕ
buf = replicate 65536 0

abbrev state : Local Deferred
state = record {
  conn = record (wiped 1 0) { local_udp_fd = some 4; in_buf = some buf };
  routed = deferred;
}
