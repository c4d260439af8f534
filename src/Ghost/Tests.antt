-- ===== src/Ghost/Tests.antt =====
-- Two descriptors, of which one has been closed and its number reused.
use g_proxy_pro.Base.{
  if◌then◌else◌, ◌==◌, ℕ, ◌≡◌, ◌≢◌, ◌⊎◌, refl, arith, true, false, Option, none, some, [], ◌∷◌,
}
use g_proxy_pro.Event.Conn.{event_id}
use g_proxy_pro.Ghost.{StuckEntry, Stamp, Ghost, Env, find_stamp, stamp_purge, track_all}
use g_proxy_pro.Ghost.Stuck.{alternating_never_purges}
use g_proxy_pro.Ghost.Purge.{IsRecorded, All, stamp_purge_safe}

abbrev stat_of : ℕ → Option (ℕ × ℕ)
stat_of fd = if fd == 7 then some (0, 71) else if fd == 8 then some (0, 99) else none

abbrev env : Env
env = record {
  fstat = stat_of;
  now_ms = 1000;
  exchange_ok = true;
  proc_self_fd = some ((55 ∷ []) ∷ (46 ∷ []) ∷ []);
  atoi = λ name. some 7;
}

abbrev entry : StuckEntry
entry = record { u64 = 0; count = 4999; last_log = 0; used = true }

abbrev ghost : Ghost
ghost = record {
  stuck = entry ∷ [];
  stamp_ring =
      record { u64 = 42; client_fd = some 7; target_fd = some 8; widx = 0; c_ino = 71; t_ino = 81 }
      ∷ [];
  stamp_ring_pos = 1;
  purge_epoll_fds = 3 ∷ 4 ∷ [];
  ghost_purged = 0;
  last_scan_ms = 0;
}

words_differ : (0 ≢ event_id 1 5) × (event_id 1 5 ≢ event_id 1 6)
unfolding event_id
words_differ = ((λ h. ground arith), λ h. ground arith)

alternating_example :
    (g' : Ghost) × (track_all ghost ((env, event_id 1 5, 10) ∷ (env, event_id 1 6, 10) ∷ [])
      ≡ some (g', []))
    × (g'.ghost_purged ≡ 0)
alternating_example =
    alternating_never_purges ((env, event_id 1 5, 10) ∷ (env, event_id 1 6, 10) ∷ []) ghost entry
      refl
      (
        (1, 5, omega arith, omega arith, refl),
        words_differ.0,
        ((1, 6, omega arith, omega arith, refl), words_differ.1, tt),
      )

stamp_purge_example :
    ((find_stamp ghost.stamp_ring 42 ≡ none)
      × (stamp_purge env ghost 42 ≡ record { found = false; deletes = []; last_scan_ms = 0 }))
    ⊎ ((s : Stamp) × (find_stamp ghost.stamp_ring 42 ≡ some s)
        × (s.u64 ≡ 42)
        × All (λ d. IsRecorded env s d.1) (stamp_purge env ghost 42).deletes)
stamp_purge_example = stamp_purge_safe env ghost 42
