-- ===== src/Tcp/Life/Worker.antt =====
-- What a worker does every 5 seconds and when it stops, in `worker_loop_safe` of
-- app/src/main/cpp/simple-socks5.c: the walk over its connections, the drops outside the lock, and the
-- exit. Which peeks find the target's end is a parameter.
use g_proxy_pro.Base.{
  ℕ, suc, ◌+◌, ◌-◌, ◌%◌, ◌^◌, ◌≤◌, ◌≡◌, refl, arith, inl, inr, Bool, true, Option, some, List, [],
  ◌∷◌, ◌++◌, ◌==◌, length, Bool-cases, ◌>>=◌,
}
use g_proxy_pro.Event.Conn.{conn_magic}
use g_proxy_pro.Batch.{Engine, Dropped, Swept, max_events, unref_all, sweep, drain}
use g_proxy_pro.Batch.Sweep.{then_drop, unlinked, dues, stays, collected, sweep_lem}
use g_proxy_pro.Batch.Drain.{live, drain_lem}
use g_proxy_pro.Tcp.{FullConn}
use g_proxy_pro.Tcp.Life.{Shared, remove, unref, finalize, give_back, scan_peek, scan_due}

-- `list_remove_locked`
unfoldable pub unlink : FullConn → Shared → Shared
unlink c s = record s { list = remove c.slot s.list }

remove_comm : (a b : ℕ) (xs : List ℕ) → remove a (remove b xs) ≡ remove b (remove a xs)
unfolding remove
remove_comm a b [] = refl
remove_comm a b (x ∷ xs) = ground (arith, remove_comm a b xs)

finalize-unlink :
    (c d : FullConn) (s : Shared)
    → finalize c (unlink d s) ≡ ((finalize c s).0, unlink d (finalize c s).1, (finalize c s).2)
unfolding finalize give_back unlink
finalize-unlink c d s = elim (Bool-cases c.finalized) [
  | inl over ↦ rw over refl
  | inr first ↦ rw (first, remove_comm c.slot d.slot s.list) refl
]

pub unref-unlink :
    (c d : FullConn) (s : Shared)
    → unref c (unlink d s) ≡ ((unref c s).0, unlink d (unref c s).1, (unref c s).2)
unfolding unref
unref-unlink c d s =
    let c1 : FullConn = record c { refs = (c.refs + (2 ^ 32 - 1)) % 2 ^ 32 } in
    elim (Bool-cases (c.refs == 1)) [
      | inl last ↦ rw last (finalize-unlink c1 d s)
      | inr more ↦ rw more refl
    ]

abbrev pub tcp_engine : Engine FullConn Shared
tcp_engine = record { unref = unref; unlink = unlink; unref-unlink = unref-unlink }

abbrev pub close : FullConn → FullConn
close c = record c { closed = true }

-- The walk every 5 seconds.
pub scan : ℕ → (FullConn → Bool) → List FullConn → List FullConn → Shared → Swept tcp_engine
scan now gone = sweep tcp_engine (λ c. scan_peek now (gone c) c) (scan_due now) close max_events

-- The exit: the list is emptied, then what was still in the bin is dropped.
pub exit_worker :
    List FullConn → List FullConn → Shared → Option (List FullConn × Dropped FullConn Shared)
exit_worker conns garbage s = do
  (rest, d) ←
      drain tcp_engine (λ c. c.magic == conn_magic) close (suc (length conns)) max_events conns s
  some (rest, then_drop tcp_engine d (unref_all tcp_engine garbage d.state))

-- If the bin is not overfull: the walk leaves exactly the connections that are not due, each with the
-- end of its target noted if the peek found it; and with the drops after the walk, everything that was in
-- the bin and everything due is dropped, once each and in order, as if the bin of 512 had no limit; the
-- bin is never overfull.
pub tcp_scan_lem :
    (now : ℕ) (gone : FullConn → Bool) (conns garbage : List FullConn) (s : Shared)
    → length garbage ≤ max_events
    → let look = λ (c : FullConn). scan_peek now (gone c) c in
      let all = dues tcp_engine look (scan_due now) close max_events conns in
      let r = scan now gone conns garbage s in
      (r.kept ≡ stays tcp_engine look (scan_due now) close max_events conns)
      × (collected tcp_engine look (scan_due now) close max_events r
          ≡ unlinked tcp_engine all (unref_all tcp_engine (garbage ++ all) s))
      × (length r.garbage ≤ max_events)
unfolding scan
tcp_scan_lem now gone conns garbage s h =
    sweep_lem tcp_engine (λ c. scan_peek now (gone c) c) (scan_due now) close max_events conns
      garbage s (omega arith) h

-- The exit comes to its end with an empty list, however many connections there are: each one that is not
-- poisoned is closed and dropped once, in order, and after them what was still in the bin.
pub exit_worker_lem :
    (conns garbage : List FullConn) (s : Shared)
    → let d =
        unlinked tcp_engine conns
          (unref_all tcp_engine (live tcp_engine (λ c. c.magic == conn_magic) close conns) s) in
      exit_worker conns garbage s
      ≡ some ([], then_drop tcp_engine d (unref_all tcp_engine garbage d.state))
unfolding exit_worker
exit_worker_lem conns garbage s =
    rw
      (drain_lem tcp_engine (λ c. c.magic == conn_magic) close (suc (length conns)) max_events conns
        s (omega arith) (omega arith))
      refl
