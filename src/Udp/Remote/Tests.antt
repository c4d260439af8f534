-- ===== src/Udp/Remote/Tests.antt =====
-- Two datagrams from the 5G side, one of an IPv4 address written as IPv6, and a client that takes three
-- bytes at a time for two calls.
use g_proxy_pro.Base.{ℕ, zero, suc, true, false, some, List, [], ◌∷◌, ◌++◌, replicate}
use g_proxy_pro.Sockaddr.{Sockaddr}
use g_proxy_pro.Tcp.{Sys, SendResult, RecvResult}
use g_proxy_pro.Udp.{wiped}
use g_proxy_pro.Udp.Remote.{Arrival, v4_mapped, Remote}

abbrev three_at_a_time : ℕ → ℕ → List ℕ → SendResult × ℕ
three_at_a_time zero fd bytes = (SendResult.send_again, 0)
three_at_a_time (suc k) fd bytes = (SendResult.took 2, k)

abbrev sys : Sys ℕ
sys = record {
  send = three_at_a_time;
  recv = λ k fd. (RecvResult.recv_again, k);
  peek_eof = λ k fd. (true, k);
  modify = λ k fd events word. (true, k);
}

abbrev client : Sockaddr
client = record { is_v6 = false; addr = 10 ∷ 0 ∷ 0 ∷ 2 ∷ []; port = 31 ∷ 144 ∷ [] }

abbrev mapped : Sockaddr
mapped = record { is_v6 = true; addr = v4_mapped ++ 8 ∷ 8 ∷ 4 ∷ 4 ∷ []; port = 0 ∷ 53 ∷ [] }

abbrev arrivals : List Arrival
arrivals =
    record { bytes = 1 ∷ 2 ∷ []; src = mapped } ∷ record { bytes = 7 ∷ []; src = client } ∷ []

buf : List ℕ
buf = replicate 65536 0

abbrev remote : Remote ℕ
remote = record {
  kernel = 2;
  conn = record (wiped 1 0) {
    client_fd = some 5;
    client_src = some client;
    in_buf = some buf;
    out_buf = some buf;
  };
  rx_bytes = 0;
  sent = [];
  replies = [];
}
