-- ===== src/Udp/Session/Worker.antt =====
-- What a UDP worker does every 5 seconds and when it stops, in `udp_worker_loop` of
-- app/src/main/cpp/simple-socks5.c: the walk over its sessions, the drops outside the lock, and the exit.
use mathlib.Core.List.{append-nil, append_assoc}
use g_proxy_pro.Base.{
  ℕ, zero, suc, ◌+◌, ◌-◌, ◌%◌, ◌^◌, ◌≤◌, ◌<◌, ◌≡◌, refl, sym, subst, ap, ◌∙◌, arith, inl, inr, Bool,
  true, false, not, ◌&&◌, Option, some, List, [], ◌∷◌, ◌++◌, ltb, ◌==◌, if◌then◌else◌, length, take,
  Bool-cases, ◌>>=◌, length-append, length-take,
}
use g_proxy_pro.Event.Udp.{conn_magic, idle_expired}
use g_proxy_pro.Dns.{pend_count}
use g_proxy_pro.Batch.{Engine, Dropped, max_events, unref_all, drain}
use g_proxy_pro.Batch.Sweep.{unlink_all, then_drop, dues, stays}
use g_proxy_pro.Udp.{CloseKind, UdpConn}
use g_proxy_pro.Udp.Session.{Shared, unlink, unref, finalize, give_back}

abbrev pub udp_idle_timeout_sec : ℕ
udp_idle_timeout_sec = 360

-- The session leaves the worker's list.
unfoldable pub leave : UdpConn → Shared → Shared
unfolding unlink
leave u s = record s { list = unlink u.slot s.list }

unlink_comm : (a b : ℕ) (xs : List ℕ) → unlink a (unlink b xs) ≡ unlink b (unlink a xs)
unfolding unlink
unlink_comm a b [] = refl
unlink_comm a b (x ∷ xs) = ground (arith, unlink_comm a b xs)

finalize-leave :
    (now : ℕ) (u d : UdpConn) (s : Shared)
    → finalize now u (leave d s)
      ≡ ((finalize now u s).0, leave d (finalize now u s).1, (finalize now u s).2)
unfolding finalize give_back leave
finalize-leave now u d s = elim (Bool-cases u.finalized) [
  | inl over ↦ rw over refl
  | inr first ↦ rw (first, unlink_comm u.slot d.slot s.list) refl
]

pub unref-leave :
    (now : ℕ) (u d : UdpConn) (s : Shared)
    → unref now u (leave d s) ≡ ((unref now u s).0, leave d (unref now u s).1, (unref now u s).2)
unfolding unref
unref-leave now u d s =
    let u1 : UdpConn = record u { refs = (u.refs + (2 ^ 32 - 1)) % 2 ^ 32 } in
    elim (Bool-cases (u.refs == 1)) [
      | inl last ↦ rw last (finalize-leave now u1 d s)
      | inr more ↦ rw more refl
    ]

abbrev pub udp_engine : ℕ → Engine UdpConn Shared
udp_engine now = record { unref = unref now; unlink = leave; unref-unlink = unref-leave now }

-- A session whose frame has not gone out yet is not idle.
unfoldable pub touch : ℕ → UdpConn → UdpConn
touch now u =
    if (u.magic == conn_magic) && (not u.closed && ltb 0 u.out_len)
    then record u { last_active = now }
    else u

unfoldable pub is_idle : ℕ → UdpConn → Bool
is_idle now u =
    (u.magic == conn_magic)
    && (not u.closed
        && (u.registered
            && ((pend_count u.pend == 0) && idle_expired now u.last_active udp_idle_timeout_sec)))

abbrev pub close_with : CloseKind → UdpConn → UdpConn
close_with kind u = record u { close_kind = kind; closed = true }

-- What the walk every 5 seconds leaves: the sessions still in the list, the bin, and the shared state.
pub record Scanned : Type 0 where
  pub kept : List UdpConn
  pub garbage : List UdpConn
  pub shared : Shared

-- A session for which the bin has no room is in neither.
pub scan : ℕ → List UdpConn → List UdpConn → Shared → Scanned
scan now [] garbage s = record { kept = []; garbage = garbage; shared = s }
scan now (u ∷ us) garbage s =
    let cur = touch now u in
    let gone = close_with CloseKind.close_idle cur in
    let stay = scan now us garbage s in
    let bin = if ltb (length garbage) max_events then garbage ++ gone ∷ [] else garbage in
    let out = scan now us bin (leave gone s) in
    if is_idle now cur then out else record stay { kept = cur ∷ stay.kept }

-- The exit: the list is emptied, then what was still in the bin is dropped.
pub exit_worker :
    ℕ → List UdpConn → List UdpConn → Shared → Option (List UdpConn × Dropped UdpConn Shared)
exit_worker now conns garbage s = do
  (rest, d) ←
      drain (udp_engine now) (λ u. u.magic == conn_magic) (close_with CloseKind.close_shutdown)
        (suc (length conns)) max_events conns s
  some (rest, then_drop (udp_engine now) d (unref_all (udp_engine now) garbage d.state))

-- All the sessions that the walk closes, and those that it leaves.
abbrev pub idle_ones : ℕ → List UdpConn → List UdpConn
idle_ones now =
    dues (udp_engine now) (touch now) (is_idle now) (close_with CloseKind.close_idle) max_events

abbrev pub busy_ones : ℕ → List UdpConn → List UdpConn
busy_ones now =
    stays (udp_engine now) (touch now) (is_idle now) (close_with CloseKind.close_idle) max_events

take-append_full : (n : ℕ) (g xs : List UdpConn) → length g ≡ n → take n (g ++ xs) ≡ g
take-append_full zero [] xs h = refl
take-append_full zero (x ∷ g) xs h = absurd (omega arith)
take-append_full (suc n) [] xs h = absurd (omega arith)
take-append_full (suc n) (x ∷ g) xs h = ap (λ l. x ∷ l) (take-append_full n g xs (omega arith))

take_short : (n : ℕ) (g : List UdpConn) → length g ≤ n → take n g ≡ g
take_short zero [] h = refl
take_short zero (x ∷ g) h = absurd (omega arith)
take_short (suc n) [] h = refl
take_short (suc n) (x ∷ g) h = ap (λ l. x ∷ l) (take_short n g (omega arith))

record Left (now : ℕ) (us bin : List UdpConn) (s : Shared) (r : Scanned) : Type 0 where
  kept : r.kept ≡ busy_ones now us
  garbage : r.garbage ≡ take max_events (bin ++ idle_ones now us)
  shared : r.shared ≡ unlink_all (udp_engine now) (idle_ones now us) s

module _ (now : ℕ) (u : UdpConn) (us bin : List UdpConn) (s : Shared) where
  abbrev cur : UdpConn
  cur = touch now u

  abbrev gone : UdpConn
  gone = close_with CloseKind.close_idle cur

  scan_step :
      (idle fits : Bool)
      → is_idle now cur ≡ idle
      → ltb (length bin) max_events ≡ fits
      → (if idle
          then scan now us (if fits then bin ++ gone ∷ [] else bin) (leave gone s)
          else (let stay = scan now us bin s in record stay { kept = cur ∷ stay.kept }))
        ≡ scan now (u ∷ us) bin s
  unfolding scan
  scan_step idle fits h1 h2 = rw (h1, h2) refl

  stay-Left :
      is_idle now cur ≡ false
      → (r : Scanned) → Left now us bin s r
      → Left now (u ∷ us) bin s (record r { kept = cur ∷ r.kept })
  stay-Left h r l = record {
    kept = rw h (ap (λ k. cur ∷ k) l.kept);
    garbage = rw h l.garbage;
    shared = rw h l.shared;
  }

  fits-Left :
      is_idle now cur ≡ true
      → (r : Scanned) → Left now us (bin ++ gone ∷ []) (leave gone s) r
      → Left now (u ∷ us) bin s r
  fits-Left h r l = record {
    kept = rw h l.kept;
    garbage =
        rw h (
          l.garbage
          ∙ ap (λ g. take max_events g) (append_assoc bin (gone ∷ []) (idle_ones now us)));
    shared = rw h l.shared;
  }

  full-Left :
      is_idle now cur ≡ true
      → length bin ≡ max_events
      → (r : Scanned) → Left now us bin (leave gone s) r
      → Left now (u ∷ us) bin s r
  full-Left h full r l = record {
    kept = rw h l.kept;
    garbage = rw h (
        l.garbage
        ∙ take-append_full max_events bin (idle_ones now us) full
        ∙ sym (take-append_full max_events bin (gone ∷ idle_ones now us) full));
    shared = rw h l.shared;
  }

scan-Left :
    (now : ℕ) (us bin : List UdpConn) (s : Shared)
    → length bin ≤ max_events
    → Left now us bin s (scan now us bin s)
unfolding scan
scan-Left now [] bin s h = record {
  kept = refl;
  garbage = sym (take_short max_events (bin ++ []) (rw (append-nil bin) h) ∙ append-nil bin);
  shared = refl;
}
scan-Left now (u ∷ us) bin s h =
    let g = gone now u us bin s in
    let r1 = scan-Left now us bin s h in
    let r3 = scan-Left now us bin (leave g s) h in
    elim (Bool-cases (is_idle now (touch now u))) [
      | inr stay ↦
          subst (λ r. Left now (u ∷ us) bin s r) (scan_step now u us bin s false _ stay refl)
            (stay-Left now u us bin s stay (scan now us bin s) r1)
      | inl go ↦ elim (Bool-cases (ltb (length bin) max_events)) [
        | inl fits ↦
            subst (λ r. Left now (u ∷ us) bin s r) (scan_step now u us bin s true true go fits)
              (fits-Left now u us bin s go (scan now us (bin ++ g ∷ []) (leave g s)) (
                scan-Left now us (bin ++ g ∷ []) (leave g s)
                  (ground (arith, length-append {0} bin (g ∷ [])))))
        | inr full ↦
            subst (λ r. Left now (u ∷ us) bin s r) (scan_step now u us bin s true false go full)
              (full-Left now u us bin s go (ground arith) (scan now us bin (leave g s)) r3)
      ]
    ]

-- Leaving the list is all that happens to what the sessions share.
only_unlinked :
    (now : ℕ) (us : List UdpConn) (s : Shared)
    → let s' = unlink_all (udp_engine now) us s in
      (s'.conn_count ≡ s.conn_count) × (s'.kinds ≡ s.kinds) × (s'.effects ≡ s.effects)
unfolding leave
only_unlinked now [] s = (refl, refl, refl)
only_unlinked now (u ∷ us) s = only_unlinked now us (leave u s)

-- If the bin is not overfull, the walk leaves exactly the sessions that are not idle in the list, takes
-- the idle ones out of the worker's list of slots, and does nothing else to what the sessions share: no
-- reference is dropped, so no connection is counted off, and nothing is closed or freed. If the bin and
-- all that are idle are 512 together at most, the bin holds them all afterwards, in order. If they are
-- more, exactly the first 512 of them are in the bin, and so many sessions fewer are in the list and the
-- bin together than before as there are more than 512.
pub udp_scan_lem :
    (now : ℕ) (us bin : List UdpConn) (s : Shared)
    → length bin ≤ max_events
    → let r = scan now us bin s in
      (r.kept ≡ busy_ones now us)
      × (r.shared ≡ unlink_all (udp_engine now) (idle_ones now us) s)
      × ((r.shared.conn_count ≡ s.conn_count)
          × (r.shared.kinds ≡ s.kinds)
          × (r.shared.effects ≡ s.effects))
      × (length bin + length (idle_ones now us) ≤ max_events → r.garbage ≡ bin ++ idle_ones now us)
      × (max_events < length bin + length (idle_ones now us)
          → (r.garbage ≡ take max_events (bin ++ idle_ones now us))
            × (length r.kept
                  + length r.garbage
                  + (length bin + length (idle_ones now us) - max_events)
                ≡ length us + length bin))
udp_scan_lem now us bin s h =
    let l = scan-Left now us bin s h in
    let (c, k, e) = only_unlinked now (idle_ones now us) s in
    (
      l.kept,
      l.shared,
      (
        ap (λ t. t.conn_count) l.shared ∙ c,
        ap (λ t. t.kinds) l.shared ∙ k,
        ap (λ t. t.effects) l.shared ∙ e,
      ),
      (λ fits.
          l.garbage
          ∙ take_short max_events (bin ++ idle_ones now us)
              (omega (arith, length-append {0} bin (idle_ones now us)))),
      λ over. (
        l.garbage,
        omega (
          arith,
          ap length l.kept,
          ap length l.garbage,
          length-append {0} bin (idle_ones now us),
          length-take max_events (bin ++ idle_ones now us)
              (omega (arith, length-append {0} bin (idle_ones now us))),
          parts us,
        ),
      ),
    )
  where
    parts : (us : List UdpConn) → length (busy_ones now us) + length (idle_ones now us) ≡ length us
    parts [] = refl
    parts (u ∷ us) = elim (Bool-cases (is_idle now (touch now u))) [
      | inl go ↦ rw go (omega (arith, parts us))
      | inr stay ↦ rw stay (omega (arith, parts us))
    ]
