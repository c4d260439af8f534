-- ===== src/Udp/Remote/Stream.antt =====
-- The TCP connection of a session of command 4: no byte of a frame is lost, doubled or out of order.
use g_proxy_pro.Base.{◌+◌, ◌<◌, ◌≡◌, ◌⊎◌, Bool, true, some, List, [], ◌++◌}
use g_proxy_pro.Tcp.{Sys}
use g_proxy_pro.Udp.Remote.{Arrival, Remote, client_loop}
use g_proxy_pro.Udp.Remote.Flush.{frames, size_of, pending}

module _ {K : Type 0} (sys : Sys K) where
  -- A call of `client_loop`: the datagrams that were received are `taken`, the others are `rest`.
  pub record Ran (blocks : Bool) (ds : List Arrival) (s : Remote K) : Type 0 where
    pub ok : Bool
    pub next : Remote K
    pub taken : List Arrival
    pub rest : List Arrival
    pub run : client_loop sys blocks ds s ≡ some (ok, next, rest)
    pub split : ds ≡ taken ++ rest
    pub stream : next.sent ++ pending next.conn ≡ s.sent ++ (pending s.conn ++ frames taken)
    pub rx : next.rx_bytes ≡ s.rx_bytes + size_of taken
    pub stops : ok ≡ true → (rest ≡ []) ⊎ (0 < next.conn.out_len)
