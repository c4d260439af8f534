-- ===== src/Ghost.antt =====
-- app/src/main/cpp/ghost_purge.c and .h: events of closed connections that keep coming are counted,
-- and their descriptors are taken out of every worker's epoll set.
-- The two locks make each function below one step.
pub mod Thresholds
pub mod Stuck
pub mod Purge
mod Tests
use g_proxy_pro.Base.{
  ℕ, zero, suc, ◌+◌, ◌-◌, ◌*◌, ◌/◌, ◌%◌, ◌^◌, bit_and, bit_or, Bool, true, false, not, ◌&&◌, ◌||◌,
  Option, none, some, List, [], ◌∷◌, ◌++◌, ltb, leb, ◌==◌, if◌then◌else◌, get_elem?, set, length,
  take,
}

abbrev pub stuck_track_slots : ℕ
stuck_track_slots = 512

abbrev pub stamp_ring_size : ℕ
stamp_ring_size = 4096

abbrev pub max_purge_epoll_fds : ℕ
max_purge_epoll_fds = 8

abbrev pub purge_threshold : ℕ
purge_threshold = 5000

unfoldable pub should_log : ℕ → Bool
should_log count =
    count == 32
    || count == 200
    || count == 1000
    || count == 5000
    || count == 25000
    || (ltb 25000 count && (count % 50000 == 0))

unfoldable pub should_purge : ℕ → Bool
should_purge count =
    count == purge_threshold || (ltb purge_threshold count && (count % purge_threshold == 0))

-- `stuck_ent_t`
pub record StuckEntry : Type 0 where
  pub u64 : ℕ
  pub count : ℕ
  pub last_log : ℕ
  pub used : Bool

-- `stamp_ent_t`; a negative descriptor is `none`.
pub record Stamp : Type 0 where
  pub u64 : ℕ
  pub client_fd : Option ℕ
  pub target_fd : Option ℕ
  pub widx : ℕ
  pub c_ino : ℕ
  pub t_ino : ℕ

-- The static variables of the file.
pub record Ghost : Type 0 where
  pub stuck : List StuckEntry
  pub stamp_ring : List Stamp
  pub stamp_ring_pos : ℕ
  pub purge_epoll_fds : List ℕ
  pub ghost_purged : ℕ
  pub last_scan_ms : ℕ

-- The system calls: `fstat` (device and inode of an open descriptor), and what the clock, the exchange
-- of the scan time with other threads, and the directory of open descriptors gave.
pub record Env : Type 0 where
  pub fstat : ℕ → Option (ℕ × ℕ)
  pub now_ms : ℕ
  pub exchange_ok : Bool
  pub proc_self_fd : Option (List (List ℕ))
  pub atoi : List ℕ → Option ℕ

-- `((unsigned long long)st.st_dev << 32) | st.st_ino`
inode_id : ℕ × ℕ → ℕ
inode_id (dev, ino) = bit_or (dev * 2 ^ 32 % 2 ^ 64) ino

pub fd_id : Env → ℕ → Option ℕ
unfolding inode_id
fd_id env fd = elim (env.fstat fd) [ none ↦ none | some st ↦ some (inode_id st) ]

pub set_epoll_fds : Ghost → List ℕ → ℕ → Ghost
set_epoll_fds g fds n = record g {
  purge_epoll_fds = take (if ltb max_purge_epoll_fds n then max_purge_epoll_fds else n) fds;
}

pub get_count : Ghost → ℕ
get_count g = g.ghost_purged

pub reset : Ghost → Ghost
reset g = record g { ghost_purged = 0 }

-- The identity of a descriptor at registration, 0 if it cannot be had.
snapshot : Env → Option ℕ → ℕ
unfolding fd_id
snapshot env none = 0
snapshot env (some fd) = elim (fd_id env fd) [ none ↦ 0 | some id ↦ id ]

-- `STAMP_RING_MASK` is one less than a power of two, so the mask is a remainder.
pub stamp_record : Env → Ghost → ℕ → Option ℕ → Option ℕ → ℕ → Ghost
unfolding snapshot
stamp_record env g u64 client_fd target_fd widx = record g {
  stamp_ring_pos = g.stamp_ring_pos + 1;
  stamp_ring = set g.stamp_ring (g.stamp_ring_pos % stamp_ring_size) (record {
    u64 = u64;
    client_fd = client_fd;
    target_fd = target_fd;
    widx = widx;
    c_ino = snapshot env client_fd;
    t_ino = snapshot env target_fd;
  });
}

pub find_stamp : List Stamp → ℕ → Option Stamp
find_stamp [] u64 = none
find_stamp (s ∷ ring) u64 = let rest = find_stamp ring u64 in if s.u64 == u64 then some s else rest

-- Whether a recorded descriptor still is what it was at registration.
still_open : Env → Option ℕ → ℕ → Option ℕ
unfolding fd_id
still_open env none ino = none
still_open env (some fd) ino =
    if not (ino == 0)
    then elim (fd_id env fd) [ none ↦ none | some id ↦ if id == ino then some fd else none ]
    else none

-- `epoll_ctl(w, EPOLL_CTL_DEL, fd, ..)` as a pair.
delete_one : Option ℕ → ℕ → List (ℕ × ℕ)
delete_one none w = []
delete_one (some fd) w = (w, fd) ∷ []

fast_deletes : List ℕ → Option ℕ → Option ℕ → List (ℕ × ℕ)
unfolding delete_one
fast_deletes [] c t = []
fast_deletes (w ∷ ws) c t = delete_one c w ++ (delete_one t w ++ fast_deletes ws c t)

delete_everywhere : List ℕ → ℕ → List (ℕ × ℕ)
delete_everywhere [] fd = []
delete_everywhere (w ∷ ws) fd = (w, fd) ∷ delete_everywhere ws fd

-- One entry of the directory.
scan_entry : Env → List ℕ → ℕ → ℕ → List ℕ → List (ℕ × ℕ)
unfolding fd_id delete_everywhere
scan_entry env ws cino tino [] = []
scan_entry env ws cino tino (c ∷ name) =
    if ltb c b'0' || ltb b'9' c then [] else elim (env.atoi (c ∷ name)) [
      | none ↦ []
      | some n ↦ elim (fd_id env n) [
        | none ↦ []
        | some id ↦
            if (not (cino == 0) && (id == cino)) || (not (tino == 0) && (id == tino))
            then delete_everywhere ws n
            else []
      ]
    ]

scan : Env → List ℕ → ℕ → ℕ → List (List ℕ) → List (ℕ × ℕ)
unfolding scan_entry
scan env ws cino tino [] = []
scan env ws cino tino (e ∷ entries) = scan_entry env ws cino tino e ++ scan env ws cino tino entries

-- What a purge did: whether a stamp was found, the registrations it deleted, and the scan's time.
pub record Purged : Type 0 where
  pub found : Bool
  pub deletes : List (ℕ × ℕ)
  pub last_scan_ms : ℕ

purge_stamp : Env → Ghost → Stamp → Purged
unfolding still_open fast_deletes scan
purge_stamp env g s =
    let fast =
      fast_deletes g.purge_epoll_fds (still_open env s.client_fd s.c_ino)
        (still_open env s.target_fd s.t_ino) in
    if ltb env.now_ms (g.last_scan_ms + 200)
    then record { found = true; deletes = fast; last_scan_ms = g.last_scan_ms }
    else if not env.exchange_ok
    then record { found = true; deletes = fast; last_scan_ms = g.last_scan_ms }
    else elim env.proc_self_fd [
      | none ↦ record { found = true; deletes = fast; last_scan_ms = env.now_ms }
      | some entries ↦ record {
        found = true;
        deletes = fast ++ scan env g.purge_epoll_fds s.c_ino s.t_ino entries;
        last_scan_ms = env.now_ms;
      }
    ]

pub stamp_purge : Env → Ghost → ℕ → Purged
unfolding find_stamp purge_stamp
stamp_purge env g u64 = elim (find_stamp g.stamp_ring u64) [
  | none ↦ record { found = false; deletes = []; last_scan_ms = g.last_scan_ms }
  | some s ↦ purge_stamp env g s
]

-- `(u64 >> 13) & STUCK_TRACK_MASK`
unfoldable pub stuck_index : ℕ → ℕ
stuck_index u64 = bit_and (u64 / 2 ^ 13) (stuck_track_slots - 1)

-- The entry of the table after one more event: reset if it was another's, then counted and logged.
unfoldable pub count_event : StuckEntry → ℕ → ℕ → StuckEntry
count_event e u64 now =
    let e1 : StuckEntry =
      if not e.used || not (e.u64 == u64)
      then record { u64 = u64; count = 0; last_log = 0; used = true }
      else e in
    let c = e1.count + 1 in
    if should_log c && leb (e1.last_log + 1) now
    then record e1 { count = c; last_log = now }
    else record e1 { count = c }

-- The rest of `ghost_stuck_track`, with the counted entry `e` of index `i`.
store_entry : Env → Ghost → ℕ → ℕ → StuckEntry → Ghost × List (ℕ × ℕ)
store_entry env g u64 i e =
    let g1 : Ghost = record g { stuck = set g.stuck i e } in
    if should_purge e.count
    then (let p = stamp_purge env g1 u64 in
        if p.found
        then (
          record g1 {
            stuck = set g1.stuck i (record e { count = 0 });
            ghost_purged = g1.ghost_purged + 1;
            last_scan_ms = p.last_scan_ms;
          },
          p.deletes,
        )
        else (g1, []))
    else (g1, [])

-- What one call of `ghost_stuck_track` leaves, and what it deleted.
pub stuck_track : Env → Ghost → ℕ → ℕ → Option (Ghost × List (ℕ × ℕ))
stuck_track env g u64 now = elim (get_elem? g.stuck (stuck_index u64)) [
  | none ↦ none
  | some e ↦ some (store_entry env g u64 (stuck_index u64) (count_event e u64 now))
]

-- Calls one after the other, each with what its system calls gave; the deletions are put together.
pub track_all : Ghost → List (Env × ℕ × ℕ) → Option (Ghost × List (ℕ × ℕ))
track_all g [] = some (g, [])
track_all g ((env, u64, now) ∷ calls) = elim (stuck_track env g u64 now) [
  | none ↦ none
  | some (g', dels) ↦ elim (track_all g' calls) [
    | none ↦ none
    | some (g'', more) ↦ some (g'', dels ++ more)
  ]
]
