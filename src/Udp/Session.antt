-- ===== src/Udp/Session.antt =====
-- A session's own functions, app/src/main/cpp/simple-socks5.c: its control connection, the frame that
-- goes out to the client, the events it waits for, and its end. Texts of log lines are left out.
pub mod End
pub mod Worker
use g_proxy_pro.Base.{
  ℕ, zero, suc, ◌+◌, ◌-◌, ◌%◌, ◌^◌, Bool, true, false, not, ◌&&◌, ◌||◌, Option, none, some, List,
  [], ◌∷◌, ◌++◌, ltb, leb, ◌==◌, length, take, drop, if◌then◌else◌, bit_or,
}
use g_proxy_pro.Forward.{EpollBits}
use g_proxy_pro.Event.Udp.{role_remote_flag}
use g_proxy_pro.Tcp.{Sys, RecvResult, TryResult, send_loop}
use g_proxy_pro.Udp.{CloseKind, UdpConn}

-- `close`, `release_java_socket` and `free`.
pub data Effect : Type 0 where
  close release_java : ℕ → Effect
  free_in free_out : Effect

-- What the ends of sessions share: the worker's list of slots, the number of connections, and the
-- counters, of which the kinds are kept as the list of those counted, as many as `g_udp_close_total`.
pub record Shared : Type 0 where
  pub list : List ℕ
  pub conn_count : ℕ
  pub double_fin : ℕ
  pub kinds : List CloseKind
  pub short_lived : ℕ
  pub effects : List Effect

pub counted_kind : CloseKind → CloseKind
counted_kind CloseKind.close_none = CloseKind.close_unknown
counted_kind CloseKind.close_idle = CloseKind.close_idle
counted_kind CloseKind.close_peer = CloseKind.close_peer
counted_kind CloseKind.close_io = CloseKind.close_io
counted_kind CloseKind.close_proto = CloseKind.close_proto
counted_kind CloseKind.close_resource = CloseKind.close_resource
counted_kind CloseKind.close_shutdown = CloseKind.close_shutdown
counted_kind CloseKind.close_unknown = CloseKind.close_unknown

unlink : ℕ → List ℕ → List ℕ
unlink slot [] = []
unlink slot (x ∷ xs) = let rest = unlink slot xs in if x == slot then rest else x ∷ rest

unfoldable pub close_fd : Option ℕ → List Effect
close_fd none = []
close_fd (some fd) = close fd ∷ []

-- The Java side first, as for a TCP connection.
unfoldable pub close_remote : Option ℕ → List Effect
close_remote none = []
close_remote (some fd) = release_java fd ∷ close fd ∷ []

-- `now - created < 1` without the difference.
give_back : ℕ → UdpConn → Shared → UdpConn × Shared × Option ℕ
give_back now u s = (
  record u {
    finalized = true;
    magic = 0;
    client_fd = none;
    local_udp_fd = none;
    remote_udp_fd = none;
    in_buf = none;
    out_buf = none;
  },
  record s {
    kinds = counted_kind u.close_kind ∷ s.kinds;
    short_lived = if ltb now (u.created + 1) then s.short_lived + 1 else s.short_lived;
    list = unlink u.slot s.list;
    conn_count = s.conn_count - 1;
    effects =
        s.effects
        ++ (close_fd u.client_fd
            ++ (close_fd u.local_udp_fd
                ++ (close_remote u.remote_udp_fd ++ free_in ∷ free_out ∷ [])));
  },
  some u.slot,
)

-- The slot that the result names is released.
pub finalize : ℕ → UdpConn → Shared → UdpConn × Shared × Option ℕ
finalize now u s =
    if u.finalized then (u, record s { double_fin = s.double_fin + 1 }, none) else give_back now u s

pub unref : ℕ → UdpConn → Shared → UdpConn × Shared × Option ℕ
unref now u s =
    let u1 : UdpConn = record u { refs = (u.refs + (2 ^ 32 - 1)) % 2 ^ 32 } in
    if u.refs == 1 then finalize now u1 s else (u1, s, none)

add_slot : Option ℕ → List ℕ → List ℕ
add_slot none slots = slots
add_slot (some i) slots = i ∷ slots

-- So many calls of `unref`, and the slots that they released.
pub unref_times : ℕ → ℕ → UdpConn → Shared → UdpConn × Shared × List ℕ
unref_times now zero u s = (u, s, [])
unref_times now (suc n) u s =
    let (u1, s1, slot) = unref now u s in
    let (u2, s2, slots) = unref_times now n u1 s1 in (u2, s2, add_slot slot slots)

-- Whether a session goes on; `none` of the result is -1.
abbrev pub fail : CloseKind → UdpConn → Bool × UdpConn
fail kind u = (false, record u { close_kind = kind })

module _ {K : Type 0} (sys : Sys K) where
  unfoldable pub after_send : UdpConn → TryResult → ℕ → Bool × UdpConn
  after_send u TryResult.drained taken = (true, record u { out_len = 0; out_off = 0 })
  after_send u TryResult.pending taken = (true, record u { out_off = u.out_off + taken })
  after_send u TryResult.broken taken =
      fail CloseKind.close_io (record u { out_off = u.out_off + taken })

  -- The frame is the first `out_len` bytes of `frame`, the session's `out_buf`.
  unfoldable pub flush_out : K → ℕ → List ℕ → UdpConn → K × Bool × UdpConn
  flush_out k fd frame u =
      let r = send_loop sys k fd (drop u.out_off (take u.out_len frame)) 0 in
      let (ok, u') = after_send u r.stop (length r.taken) in (r.kernel, ok, u')

  ctrl_recv : UdpConn → RecvResult → Bool × UdpConn
  ctrl_recv u (RecvResult.got b bs) = (true, u)
  ctrl_recv u RecvResult.eof = fail CloseKind.close_peer u
  ctrl_recv u RecvResult.recv_again = (true, u)
  ctrl_recv u RecvResult.recv_failed = fail CloseKind.close_io u

  -- `gone` is EPOLLERR, EPOLLHUP or EPOLLRDHUP in the event, `readable` EPOLLIN.
  pub ctrl_event : K → ℕ → Bool → Bool → UdpConn → K × Bool × UdpConn
  ctrl_event k fd gone readable u =
      if gone
      then (let (ok, u') = fail CloseKind.close_peer u in (k, ok, u'))
      else if readable
      then (let (r, k') = sys.recv k fd in let (ok, u') = ctrl_recv u r in (k', ok, u'))
      else (k, true, u)

  is_some : Option ℕ → Bool
  is_some none = false
  is_some (some fd) = true

  client_mask : EpollBits → UdpConn → ℕ
  client_mask bits u =
      let quiet = is_some u.local_udp_fd in
      let base = if quiet then bits.epollrdhup else bit_or bits.epollin bits.epollrdhup in
      if not quiet && ltb 0 u.out_len then bit_or base bits.epollout else base

  update_client : K → ℕ → UdpConn → K × UdpConn
  update_client k ev u =
      if not (u.client_events == ev)
      then elim u.client_fd [
        | none ↦ (k, u)
        | some fd ↦
            let (ok, k') = sys.modify k fd ev u.ep_u64 in
            (k', if ok then record u { client_events = ev } else u)
      ]
      else (k, u)

  update_remote : EpollBits → K → UdpConn → K × UdpConn
  update_remote bits k u = elim u.remote_udp_fd [
    | none ↦ (k, u)
    | some fd ↦
        let ev : ℕ = if ltb 0 u.out_len then 0 else bits.epollin in
        if is_some u.local_udp_fd || u.remote_events == ev
        then (k, u)
        else (let (ok, k') = sys.modify k fd ev (bit_or u.ep_u64 role_remote_flag) in
            (k', if ok then record u { remote_events = ev } else u))
  ]

  pub update_events : EpollBits → K → UdpConn → K × UdpConn
  update_events bits k u =
      if u.closed
      then (k, u)
      else (let (k1, u1) = update_client k (client_mask bits u) u in update_remote bits k1 u1)
