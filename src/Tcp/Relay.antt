-- ===== src/Tcp/Relay.antt =====
-- What a worker does for one event of a connection that the guard let through, in the steps of
-- `worker_loop_safe` (app/src/main/cpp/simple-socks5.c). Beside the connection the state keeps the two
-- byte counters and the streams that have passed the sockets so far.
pub mod Sending
pub mod Integrity
use g_proxy_pro.Base.{
  ℕ, zero, suc, ◌+◌, ◌-◌, bit_and, Bool, true, false, not, ◌&&◌, ◌||◌, Option, none, some, List, [],
  ◌∷◌, ◌++◌, ltb, leb, ◌==◌, length, if◌then◌else◌,
}
use g_proxy_pro.Forward.{EpollBits, interest, grace_expired, grace_sec, map_fwd_to_epoll}
use g_proxy_pro.Event.Conn.{target_flag}
use g_proxy_pro.Base.{bit_or}
use g_proxy_pro.Tcp.{FullConn, SendResult, RecvResult, Sys, TryResult, Tried, try_send}

-- The bytes received from and sent to each side, first to last.
pub record Flow : Type 0 where
  pub from_client : List ℕ
  pub to_target : List ℕ
  pub from_target : List ℕ
  pub to_client : List ℕ

-- `tx` and `rx` are the worker's `g_tx_bytes` and `g_rx_bytes`; `fatal` is `fatal_error`.
pub record State (K : Type 0) : Type 0 where
  pub kernel : K
  pub conn : FullConn
  pub fatal : Bool
  pub tx : ℕ
  pub rx : ℕ
  pub flow : Flow

abbrev pub is_broken : TryResult → Bool
is_broken TryResult.broken = true
is_broken TryResult.pending = false
is_broken TryResult.drained = false

module _ {K : Type 0} (sys : Sys K) where
  -- `try_send(client_fd, t2c_buf, ..)`
  to_client : State K → State K
  to_client s =
      let t = try_send sys s.kernel s.conn.client_fd s.conn.t2c s.conn.t2c_off in
      record s {
        kernel = t.kernel;
        conn = record s.conn { t2c = t.buf; t2c_off = t.off };
        fatal = s.fatal || is_broken t.result;
        flow = record s.flow { to_client = s.flow.to_client ++ t.taken };
      }

  -- `try_send(target_fd, c2t_buf, ..)` and `account_upload`.
  to_target : State K → State K
  to_target s =
      let t = try_send sys s.kernel s.conn.target_fd s.conn.c2t s.conn.c2t_off in
      record s {
        kernel = t.kernel;
        conn = record s.conn { c2t = t.buf; c2t_off = t.off };
        fatal = s.fatal || is_broken t.result;
        tx = s.tx + length t.taken;
        flow = record s.flow { to_target = s.flow.to_target ++ t.taken };
      }

  recv_from : K → Option ℕ → RecvResult × K
  recv_from k none = (RecvResult.recv_failed, k)
  recv_from k (some fd) = sys.recv k fd

  peek : K → Option ℕ → Bool × K
  peek k none = (false, k)
  peek k (some fd) = sys.peek_eof k fd

  flush_client : State K → State K
  flush_client s = if ltb 0 (length s.conn.t2c) then to_client s else s

  flush_target : State K → State K
  flush_target s = if ltb 0 (length s.conn.c2t) then to_target s else s

  -- What was read from the client, and what follows from it.
  from_client : ℕ → State K → RecvResult → K → State K
  from_client now s (RecvResult.got b bs) k = to_target (record s {
    kernel = k;
    conn = record s.conn { c2t = b ∷ bs; c2t_off = 0 };
    flow = record s.flow { from_client = s.flow.from_client ++ b ∷ bs };
  })
  from_client now s RecvResult.eof k = record s {
    kernel = k;
    conn = record s.conn { client_eof = true; eof_since = now };
  }
  from_client now s RecvResult.recv_again k = record s { kernel = k }
  from_client now s RecvResult.recv_failed k = record s { kernel = k; fatal = true }

  read_client : ℕ → State K → State K
  read_client now s =
      if not s.fatal && ((length s.conn.c2t == 0) && not s.conn.client_eof)
      then (let (r, k) = recv_from s.kernel s.conn.client_fd in from_client now s r k)
      else s

  from_target : State K → RecvResult → K → State K
  from_target s (RecvResult.got b bs) k = to_client (record s {
    kernel = k;
    conn = record s.conn { t2c = b ∷ bs; t2c_off = 0 };
    rx = s.rx + suc (length bs);
    flow = record s.flow { from_target = s.flow.from_target ++ b ∷ bs };
  })
  from_target s RecvResult.eof k = record s { kernel = k; fatal = true }
  from_target s RecvResult.recv_again k = record s { kernel = k }
  from_target s RecvResult.recv_failed k = record s { kernel = k; fatal = true }

  read_target : State K → State K
  read_target s =
      if not s.fatal && (length s.conn.t2c == 0)
      then (let (r, k) = recv_from s.kernel s.conn.target_fd in from_target s r k)
      else s

  -- The four transfers, unless the event itself is an error.
  pub transfer : ℕ → State K → State K
  transfer now s =
      if not s.fatal then read_target (read_client now (flush_target (flush_client s))) else s

  is_open : Option ℕ → Bool
  is_open none = false
  is_open (some fd) = true

  -- The target's half-close is noted once.
  note_target_eof : ℕ → Bool → Bool → State K → State K
  note_target_eof now is_target rdhup s =
      if not s.fatal
        && (is_target && ((s.conn.target_eof_since == 0) && (rdhup && is_open s.conn.target_fd)))
      then record s { conn = record s.conn { target_eof_since = now } }
      else s

  -- With both buffers empty, whether the connection is over.
  check_end : ℕ → State K → State K
  check_end now s =
      if not s.fatal && ((length s.conn.c2t == 0) && (length s.conn.t2c == 0))
      then (if s.conn.client_eof
          then (if grace_expired now s.conn.eof_since grace_sec
              then record s { fatal = true }
              else s)
          else (let (over, k) = peek s.kernel s.conn.target_fd in
              if over then record s { kernel = k; fatal = true } else record s { kernel = k }))
      else s

  -- All of it: `error` is EPOLLERR or EPOLLHUP in the event, `rdhup` EPOLLRDHUP.
  pub handle_event : ℕ → Bool → Bool → Bool → State K → State K
  handle_event now is_target error rdhup s = check_end now (
      note_target_eof now is_target rdhup
        (transfer now (record s { conn = record s.conn { last_active = now }; fatal = error })))

  -- `epoll_ctl(.., EPOLL_CTL_MOD, ..)` on an open descriptor.
  modify_fd : K → Option ℕ → ℕ → ℕ → Bool × K
  modify_fd k none events word = (false, k)
  modify_fd k (some fd) events word = sys.modify k fd events word

  update_client : K → FullConn → ℕ → K × FullConn
  update_client k c ev =
      if not (c.client_events == ev)
      then (let (ok, k') = modify_fd k c.client_fd ev c.ep_u64 in
          (k', if ok then record c { client_events = ev } else c))
      else (k, c)

  update_target : K → FullConn → ℕ → K × FullConn
  update_target k c ev =
      if not (c.target_events == ev)
      then (let (ok, k') = modify_fd k c.target_fd ev (bit_or c.ep_u64 target_flag) in
          (k', if ok then record c { target_events = ev } else c))
      else (k, c)

  pub update_conn_events : EpollBits → K → FullConn → K × FullConn
  update_conn_events bits k c =
      if c.closed
      then (k, c)
      else (let (c_fwd, t_fwd) =
            interest c.closed c.client_eof (not (c.target_eof_since == 0)) (ltb 0 (length c.c2t))
              (ltb 0 (length c.t2c)) in
          let (k1, c1) = update_client k c (map_fwd_to_epoll bits c_fwd) in
          update_target k1 c1 (map_fwd_to_epoll bits t_fwd))
