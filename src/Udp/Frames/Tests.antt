-- ===== src/Udp/Frames/Tests.antt =====
-- A stream that gives one byte at a time, and a session that waits for a frame.
use g_proxy_pro.Base.{
  ℕ, zero, suc, ◌≤◌, ◌<◌, ◌≡◌, refl, arith, Bool, true, none, some, List, [], ◌∷◌, length,
  replicate, length-replicate,
}
use g_proxy_pro.Tcp.{RecvResult}
use g_proxy_pro.Ring.{Ring}
use g_proxy_pro.Ring.Fifo.{Holds}
use g_proxy_pro.Dns.Relay.{Out, Req, Deferred}
use g_proxy_pro.Dns.Relay.Route.{IsQueued}
use g_proxy_pro.Udp.{UdpConn, wiped}
use g_proxy_pro.Udp.Frames.{Stream, Input, stop, buffer_size, loop}
use g_proxy_pro.Udp.Frames.Held.{Framed, Ready}
use g_proxy_pro.Udp.Frames.Routed.{all_given, relay, reassembly_lem}

abbrev one_by_one : List ℕ → ℕ → ℕ → RecvResult × List ℕ
one_by_one [] fd n = (RecvResult.recv_again, [])
one_by_one (b ∷ bs) fd zero = (RecvResult.recv_again, b ∷ bs)
one_by_one (b ∷ bs) fd (suc n) = (RecvResult.got b [], bs)

one_by_one_room :
    (k : List ℕ) (fd n b : ℕ) (bs : List ℕ)
    → (one_by_one k fd n).0 ≡ RecvResult.got b bs
    → length bs < n
one_by_one_room [] fd n b bs e = absurd cc
one_by_one_room (x ∷ k) fd zero b bs e = absurd cc
one_by_one_room (x ∷ k) fd (suc n) b bs e = ground arith

one_by_one_left :
    (k : List ℕ) (fd n b : ℕ) (bs : List ℕ)
    → (one_by_one k fd n).0 ≡ RecvResult.got b bs
    → length (one_by_one k fd n).1 < length k
one_by_one_left [] fd n b bs e = absurd cc
one_by_one_left (x ∷ k) fd zero b bs e = absurd cc
one_by_one_left (x ∷ k) fd (suc n) b bs e = omega arith

stream : Stream (List ℕ)
stream = record {
  recv = one_by_one;
  left = length;
  recv_room = one_by_one_room;
  recv_left = one_by_one_left;
}

in_buf : List ℕ
in_buf = replicate 65600 0

in_buf-room : buffer_size ≤ length in_buf
unfolding in_buf
in_buf-room = omega (arith, length-replicate {A = ℕ} 65600 0)

abbrev conn : UdpConn
conn = record (wiped 1 0) { client_fd = some 5; in_buf = some in_buf }

abbrev queue : Ring Req
queue = record {
  items = replicate 2 (record { worker_idx = 0; job_idx = 0; host = [] });
  cap = 2;
  head = 0;
  tail = 0;
  count = 0;
}

queue-Holds : Holds queue []
queue-Holds = record {
  whole = refl;
  head_in = omega arith;
  fits = omega arith;
  counted = refl;
  tail_at = refl;
  at = λ i h. absurd (omega arith);
}

abbrev out : Out
out = record {
  enqueued = 0;
  ok = 0;
  fail = 0;
  qfull = 0;
  jobfull = 0;
  drop = 0;
  replay = 0;
  lost = 0;
  tx_bytes = 0;
  sent = [];
}

abbrev deferred : Deferred
deferred = record { jobs = []; queue = queue; pend = conn.pend; out = out }

abbrev state : Input (List ℕ) Deferred
state = record {
  kernel = 0 ∷ 4 ∷ 0 ∷ 0 ∷ 0 ∷ 1 ∷ 0 ∷ [];
  conn = conn;
  routed = deferred;
  received = [];
  frames = [];
}

state-Framed : Framed state
state-Framed = record {
  buf = in_buf;
  has_buf = refl;
  room = in_buf-room;
  two = refl;
  len_in = omega arith;
  fresh = λ h. refl;
  stream = refl;
  sized = tt;
}

state-Ready : Ready state
state-Ready h = absurd (omega arith)

reassembly_example :
    (ok : Bool) × (s' : Input (List ℕ) Deferred) × (loop stream
        (relay 50 0 (λ d. none) (some 6) [])
        50
        16
        state
      ≡ some (stop ok s'))
    × Framed s'
    × (ok ≡ true → Ready s')
    × IsQueued s'.routed
    × (all_given (relay 50 0 (λ d. none) (some 6) []) s'.frames deferred ≡ some s'.routed)
unfolding stream
reassembly_example =
    reassembly_lem stream 50 0 (λ d. none) (some 6) [] deferred 16 state state-Framed state-Ready
      ([], queue-Holds) refl (omega arith)
