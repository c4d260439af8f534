-- ===== src/Handshake/Quota.antt =====
-- The count of connections, `g_conn_count`, under any interleaving of threads: `handle_handshake_fd` and
-- `udp_start_session` add one and look at what was there before; a thread that finds no room takes its
-- one back, as does the end of a connection (app/src/main/cpp/simple-socks5.c). Each is one atomic step.
use g_proxy_pro.Base.{ℕ, ◌+◌, ◌-◌, ◌≤◌, ◌<◌, ◌≡◌, refl, arith, leb, if◌then◌else◌}
use g_proxy_pro.Handshake.{max_concurrent_conns}

-- The count, the connections that have a place, and the threads that have found no room and have not
-- taken their one back yet.
pub record Quota : Type 0 where
  pub conn_count : ℕ
  pub placed : ℕ
  pub backing_out : ℕ

-- `atomic_fetch_add(&g_conn_count, 1) >= MAX_CONCURRENT_CONNS`
pub enter : Quota → Quota
enter q =
    if leb max_concurrent_conns q.conn_count
    then record q { conn_count = q.conn_count + 1; backing_out = q.backing_out + 1 }
    else record q { conn_count = q.conn_count + 1; placed = q.placed + 1 }

-- `atomic_fetch_sub(&g_conn_count, 1)` of a thread that found no room.
pub back_out : Quota → Quota
back_out q = record q { conn_count = q.conn_count - 1; backing_out = q.backing_out - 1 }

-- That of the end of a connection, or of a target for which there is no socket.
pub leave : Quota → Quota
leave q = record q { conn_count = q.conn_count - 1; placed = q.placed - 1 }

pub data Step (q : Quota) : Quota → Type 0 where
  entering : Step q (enter q)
  backing : 0 < q.backing_out → Step q (back_out q)
  leaving : 0 < q.placed → Step q (leave q)

pub data Run (q : Quota) : Quota → Type 0 where
  here : Run q q
  next : {r s : Quota} → Run q r → Step r s → Run q s

abbrev pub no_conns : Quota
no_conns = record { conn_count = 0; placed = 0; backing_out = 0 }

record IsCounted (q : Quota) : Type 0 where
  total : q.conn_count ≡ q.placed + q.backing_out
  bound : q.placed ≤ max_concurrent_conns

Step-IsCounted : {q r : Quota} → Step q r → IsCounted q → IsCounted r
unfolding enter back_out leave
Step-IsCounted {q} entering v = ground arith
Step-IsCounted (backing some_back) v = ground arith
Step-IsCounted (leaving some_placed) v = ground arith

Run-IsCounted : {q : Quota} → Run no_conns q → IsCounted q
Run-IsCounted here = record { total = refl; bound = omega arith }
Run-IsCounted (next r s) = Step-IsCounted s (Run-IsCounted r)

-- From no connections on, however the threads interleave: the count is never below the connections that
-- have a place and exceeds them only by threads that are backing out; never more than 1000 have a place;
-- and while no thread is backing out and fewer than 1000 have a place, the next to enter gets one.
pub Run-quota :
    {q : Quota}
    → Run no_conns q
    → (q.conn_count ≡ q.placed + q.backing_out)
      × (q.placed ≤ max_concurrent_conns)
      × (q.backing_out ≡ 0 → q.placed < max_concurrent_conns → (enter q).placed ≡ q.placed + 1)
unfolding enter
Run-quota {q} r = let v = Run-IsCounted r in (v.total, v.bound, λ e room. ground (arith, v.total))
