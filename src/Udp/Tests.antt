-- ===== src/Udp/Tests.antt =====
-- A session of command 0x03 that is dropped twice.
use g_proxy_pro.Batch.Sweep.{unlink_all}
use g_proxy_pro.Base.{List, length-replicate, replicate}
use g_proxy_pro.Base.{◌≡◌, refl, some, [], ◌∷◌}
use g_proxy_pro.Udp.{CloseKind, UdpConn, wiped}
use g_proxy_pro.Udp.Session.{
  Shared, close, release_java, free_in, free_out, close_fd, close_remote, counted_kind, unref_times,
}
use g_proxy_pro.Udp.Session.End.{session_end_lem}
use g_proxy_pro.Base.{◌++◌, ◌+◌, ◌-◌, length, ◌≤◌, ◌<◌, arith, take, true}
use g_proxy_pro.Event.Udp.{conn_magic}
use g_proxy_pro.Batch.{max_events}
use g_proxy_pro.Udp.Session.Worker
use g_proxy_pro.Udp.Session.Worker.{udp_engine, busy_ones, idle_ones, udp_scan_lem}

abbrev session : UdpConn
session = record (wiped 4 2) {
  client_fd = some 7;
  local_udp_fd = some 8;
  remote_udp_fd = some 9;
  refs = 1;
  close_kind = CloseKind.close_idle;
}

abbrev shared : Shared
shared = record {
  list = 2 ∷ [];
  conn_count = 1;
  double_fin = 0;
  kinds = [];
  short_lived = 0;
  effects = [];
}

session_end_example :
    let (u', s', slots) = unref_times 50 2 session shared in
    (s'.effects ≡ close 7 ∷ close 8 ∷ release_java 9 ∷ close 9 ∷ free_in ∷ free_out ∷ [])
    × (s'.kinds ≡ counted_kind CloseKind.close_idle ∷ [])
    × (slots ≡ 2 ∷ [])
unfolding close_fd close_remote
session_end_example = session_end_lem 50 1 session shared refl refl

abbrev quiet : UdpConn
quiet = record session { magic = conn_magic; registered = true; last_active = 5 }

-- The bin is full.
full_bin : List UdpConn
full_bin = replicate 512 quiet

full_bin-full : length full_bin ≡ 512
unfolding full_bin
full_bin-full = length-replicate {A = UdpConn} 512 quiet

udp_scan_example :
    let r = Worker.scan 400 (quiet ∷ []) full_bin shared in
    let idle = idle_ones 400 (quiet ∷ []) in
    (r.kept ≡ busy_ones 400 (quiet ∷ []))
    × (r.shared ≡ unlink_all (udp_engine 400) idle shared)
    × ((r.shared.conn_count ≡ shared.conn_count)
        × (r.shared.kinds ≡ shared.kinds)
        × (r.shared.effects ≡ shared.effects))
    × (length full_bin + length idle ≤ max_events → r.garbage ≡ full_bin ++ idle)
    × (max_events < length full_bin + length idle
        → (r.garbage ≡ take max_events (full_bin ++ idle))
          × (length r.kept + length r.garbage + (length full_bin + length idle - max_events)
              ≡ 1 + length full_bin))
udp_scan_example = udp_scan_lem 400 (quiet ∷ []) full_bin shared (omega (arith, full_bin-full))

-- One session too many is idle.
overfull : max_events < length full_bin + length (idle_ones 400 (quiet ∷ []))
unfolding Worker.is_idle Worker.touch g_proxy_pro.Dns.pend_count g_proxy_pro.Event.Udp.idle_expired
overfull = omega (arith, full_bin-full)
