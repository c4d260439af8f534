-- ===== src/Tcp/Tests.antt =====
-- A kernel that takes two bytes at a time, and has three from the client and none from the target.
use g_proxy_pro.Base.{
  ℕ, zero, suc, ◌≤◌, ◌<◌, ◌≡◌, ◌⊎◌, refl, arith, true, false, some, List, [], ◌∷◌, ◌++◌,
}
use g_proxy_pro.Event.Conn.{conn_magic}
use g_proxy_pro.Tcp.{FullConn, wiped, SendResult, RecvResult, Sys}
use g_proxy_pro.Tcp.Relay.{State, handle_event}
use g_proxy_pro.Tcp.Relay.Integrity.{Intact, handle_event-Intact}
use g_proxy_pro.Tcp.Life.{
  free_bufs, close_target, close_client, Shared, close, release_java, free_c2t, free_t2c,
  unref_times, scan_due,
}
use g_proxy_pro.Tcp.Life.Once.{Listed, unref_times_lem}
use g_proxy_pro.Base.{◌++◌, ◌==◌, length, ◌≤◌, arith, some, false}
use g_proxy_pro.Batch.{max_events, unref_all}
use g_proxy_pro.Batch.Sweep.{dues, stays, collected, unlinked, then_drop}
use g_proxy_pro.Batch.Drain.{live}
use g_proxy_pro.Tcp.Life.{scan_peek}
use g_proxy_pro.Tcp.Life.Worker
use g_proxy_pro.Slots.{Table}
use g_proxy_pro.Slots.Start.{init-IsValid}
use g_proxy_pro.Tcp.{slots_init, tcp_slotted}
use g_proxy_pro.Base.{none, ◌⊎◌}
use g_proxy_pro.Tcp.Life.Handoff.{Engine, Circumstances, handoff}
use g_proxy_pro.Tcp.Life.Handoff.Outcome.{Owned, Undone}
use g_proxy_pro.Tcp.Life.Handoff.Owned.{handoff_lem}
use g_proxy_pro.Tcp.Life.Worker.{tcp_engine, tcp_scan_lem, exit_worker, exit_worker_lem}

-- The kernel's state counts how often it will still take bytes.
abbrev pair_at_a_time : ℕ → ℕ → List ℕ → SendResult × ℕ
pair_at_a_time zero fd bytes = (SendResult.send_again, 0)
pair_at_a_time (suc k) fd bytes = (SendResult.took 1, k)

abbrev sys : Sys ℕ
sys = record {
  send = pair_at_a_time;
  recv = λ k fd. (RecvResult.recv_again, k);
  peek_eof = λ k fd. (false, k);
  modify = λ k fd events word. (true, k);
}

abbrev conn : FullConn
conn = record (wiped 3 5) {
  magic = conn_magic;
  client_fd = some 7;
  target_fd = some 8;
  has_c2t_buf = true;
  has_t2c_buf = true;
  c2t = 1 ∷ 2 ∷ 3 ∷ [];
  refs = 1;
  registered = true;
}

abbrev state : State ℕ
state = record {
  kernel = 1;
  conn = conn;
  fatal = false;
  tx = 100;
  rx = 200;
  flow = record { from_client = 1 ∷ 2 ∷ 3 ∷ []; to_target = []; from_target = []; to_client = [] };
}

state-Intact : Intact 100 200 state
state-Intact = record { upstream = refl; downstream = refl; sent_up = refl; got_down = refl }

handle_event_example : Intact 100 200 (handle_event sys 50 true false true state)
handle_event_example = handle_event-Intact sys 100 200 50 true false true state state-Intact

abbrev shared : Shared
shared = record { list = 4 ∷ 5 ∷ []; conn_count = 2; double_fin = 0; effects = [] }

unref_example :
    let (c', s', slots) = unref_times 2 conn shared in
    (2 ≤ 0 → (s' ≡ shared) × (slots ≡ []) × (c'.finalized ≡ false))
    × (0 < 2
        → (s'.effects ≡ close 7 ∷ release_java 8 ∷ close 8 ∷ free_c2t ∷ free_t2c ∷ [])
          × (slots ≡ 5 ∷ [])
          × (c'.finalized ≡ true)
          × (¬ Listed 5 s'.list))
unfolding close_client close_target free_bufs
unref_example = unref_times_lem 2 0 conn shared refl (omega arith) refl

tcp_scan_example :
    let look = λ (c : FullConn). scan_peek 400 false c in
    let all = dues tcp_engine look (scan_due 400) Worker.close max_events (conn ∷ []) in
    let r = Worker.scan 400 (λ c. false) (conn ∷ []) [] shared in
    (r.kept ≡ stays tcp_engine look (scan_due 400) Worker.close max_events (conn ∷ []))
    × (collected tcp_engine look (scan_due 400) Worker.close max_events r
        ≡ unlinked tcp_engine all (unref_all tcp_engine ([] ++ all) shared))
    × (length r.garbage ≤ max_events)
tcp_scan_example = tcp_scan_lem 400 (λ c. false) (conn ∷ []) [] shared (omega arith)

exit_worker_example :
    let d = unlinked tcp_engine (conn ∷ []) (
      unref_all tcp_engine
        (live tcp_engine (λ c. c.magic == conn_magic) Worker.close (conn ∷ []))
        shared) in
    exit_worker (conn ∷ []) [] shared
    ≡ some ([], then_drop tcp_engine d (unref_all tcp_engine [] d.state))
exit_worker_example = exit_worker_lem (conn ∷ []) [] shared

abbrev unset : Table FullConn
unset = record {
  slots = wiped 0 0 ∷ wiped 0 0 ∷ [];
  slot_state = true ∷ false ∷ [];
  free_slots = 0 ∷ 0 ∷ [];
  free_slot_top = 0;
  acquired = 0;
  released = 0;
  exhausted = 0;
}

-- Two slots, none of them in use; both registrations succeed.
abbrev engine : Engine
engine = record {
  table = slots_init unset;
  shared = record { list = []; conn_count = 1; double_fin = 0; effects = [] };
  ghost = record {
    stuck = [];
    stamp_ring = [];
    stamp_ring_pos = 0;
    purge_epoll_fds = [];
    ghost_purged = 0;
    last_scan_ms = 0;
  };
  added = [];
}

abbrev circumstances : Circumstances
circumstances = record {
  now = 40;
  c2t_given = true;
  t2c_given = true;
  stopping = false;
  add = λ fd events word. true;
  bits = record { epollin = 1; epollout = 4; epollrdhup = 8192 };
  files = record {
    fstat = λ fd. none;
    now_ms = 0;
    exchange_ok = true;
    proc_self_fd = none;
    atoi = λ text. none;
  };
}

handoff_example :
    ((g' : Engine) × (handoff circumstances 0 7 8 engine ≡ some (true, g'))
      × Owned 7 8 circumstances 2 engine g')
    ⊎ ((g' : Engine) × (handoff circumstances 0 7 8 engine ≡ some (false, g'))
        × Undone 7 8 circumstances 2 engine g')
handoff_example = handoff_lem 7 8 circumstances 0 2 engine (init-IsValid unset).0 tt
