-- ===== src/Tcp/Life.antt =====
-- The end of a connection, app/src/main/cpp/simple-socks5.c: its reference count, and what is given back
-- when the last reference goes. System calls and calls into Java are listed in order.
pub mod Once
pub mod Worker
pub mod Handoff
use g_proxy_pro.Base.{
  ℕ, zero, suc, ◌+◌, ◌-◌, ◌%◌, ◌^◌, Bool, true, false, not, ◌&&◌, ◌||◌, Option, none, some, List,
  [], ◌∷◌, ◌++◌, ltb, leb, ◌==◌, length, if◌then◌else◌, ◌>>=◌, bit_or,
}
use g_proxy_pro.Slots.{Table, release}
use g_proxy_pro.Forward.{grace_expired, grace_sec}
use g_proxy_pro.Event.Conn.{conn_magic, event_id}
use g_proxy_pro.Tcp.{FullConn}

-- `close`, `release_java_socket` and `free`.
pub data Effect : Type 0 where
  close release_java : ℕ → Effect
  free_c2t free_t2c : Effect

-- What the ends of connections share: a worker's list of slots, the number of connections, and the
-- count of second ends.
pub record Shared : Type 0 where
  pub list : List ℕ
  pub conn_count : ℕ
  pub double_fin : ℕ
  pub effects : List Effect

-- `list_remove_locked` of a listed slot, and nothing for one that is not.
pub remove : ℕ → List ℕ → List ℕ
remove slot [] = []
remove slot (x ∷ xs) = let rest = remove slot xs in if x == slot then rest else x ∷ rest

-- The client's descriptor is closed.
unfoldable pub close_client : Option ℕ → List Effect
close_client none = []
close_client (some fd) = close fd ∷ []

-- The target's: the Java side first, as its map is keyed by the number, which `close` gives back to
-- the system.
unfoldable pub close_target : Option ℕ → List Effect
close_target none = []
close_target (some fd) = release_java fd ∷ close fd ∷ []

unfoldable pub free_bufs : Bool → Bool → List Effect
free_bufs c2t t2c = (if c2t then free_c2t ∷ [] else []) ++ (if t2c then free_t2c ∷ [] else [])

-- Of `conn_finalize` what follows when it is the first call, up to the release of the slot.
give_back : FullConn → Shared → FullConn × Shared × Option ℕ
give_back c s = (
  record c {
    finalized = true;
    magic = 0;
    client_fd = none;
    target_fd = none;
    has_c2t_buf = false;
    has_t2c_buf = false;
  },
  record s {
    list = remove c.slot s.list;
    conn_count = s.conn_count - 1;
    effects =
        s.effects
        ++ (close_client c.client_fd
            ++ (close_target c.target_fd ++ free_bufs c.has_c2t_buf c.has_t2c_buf));
  },
  some c.slot,
)

-- `conn_finalize`; the slot that the result names is released.
pub finalize : FullConn → Shared → FullConn × Shared × Option ℕ
unfolding give_back
finalize c s =
    if c.finalized then (c, record s { double_fin = s.double_fin + 1 }, none) else give_back c s

pub option_list : Option ℕ → List ℕ
option_list none = []
option_list (some x) = x ∷ []

-- `atomic_fetch_sub` gives the count before; it wraps below 0.
pub unref : FullConn → Shared → FullConn × Shared × Option ℕ
unref c s =
    let c1 : FullConn = record c { refs = (c.refs + (2 ^ 32 - 1)) % 2 ^ 32 } in
    if c.refs == 1 then finalize c1 s else (c1, s, none)

-- So many calls of `unref`, and the slots that they released.
pub unref_times : ℕ → FullConn → Shared → FullConn × Shared × List ℕ
unref_times zero c s = (c, s, [])
unref_times (suc n) c s =
    let (c1, s1, slot) = unref c s in
    let (c2, s2, slots) = unref_times n c1 s1 in (c2, s2, option_list slot ++ slots)

-- A fatal event: the connection is closed and taken out of the list once, and put on the garbage list,
-- whose references are dropped after all events of the batch.
pub retire : FullConn → List ℕ → List ℕ → FullConn × List ℕ × List ℕ
retire c list garbage =
    if not c.closed
    then (record c { closed = true }, remove c.slot list, garbage ++ c.slot ∷ [])
    else (c, list, garbage)

abbrev pub idle_timeout_sec : ℕ
idle_timeout_sec = 300

has_fd : Option ℕ → Bool
has_fd none = false
has_fd (some fd) = true

-- The scan every 5 seconds: `peer_gone` is whether the peek at the target found its end.
pub scan_peek : ℕ → Bool → FullConn → FullConn
scan_peek now peer_gone c =
    if (c.magic == conn_magic)
      && (not c.closed
          && (c.registered
              && ((c.target_eof_since == 0)
                  && (ltb 0 (length c.t2c) && (has_fd c.target_fd && peer_gone)))))
    then record c { target_eof_since = now }
    else c

pub scan_due : ℕ → FullConn → Bool
scan_due now c =
    (c.magic == conn_magic)
    && (not c.closed
        && (c.registered
            && (ltb (c.last_active + idle_timeout_sec) now
                || ((c.client_eof && grace_expired now c.eof_since grace_sec)
                    || grace_expired now c.target_eof_since grace_sec))))
