-- ===== src/Tcp/Life/Handoff.antt =====
-- `handoff_to_worker` of app/src/main/cpp/simple-socks5.c: a connected pair of descriptors becomes a
-- connection of a worker. What `malloc` and `epoll_ctl` answer and whether the worker is stopping are
-- parameters; what is done under the worker's lock is one step.
pub mod Outcome
pub mod Owned
pub mod Undo
use g_proxy_pro.Base.{
  ℕ, ◌-◌, ◌^◌, bit_or, Bool, true, false, not, ◌&&◌, Option, none, some, List, [], ◌∷◌, ◌++◌,
  if◌then◌else◌, ◌>>=◌, get_elem?, set,
}
use g_proxy_pro.Slots.{Table, release}
use g_proxy_pro.Event.Conn.{target_flag, conn_magic, event_id}
use g_proxy_pro.Forward.{EpollBits}
use g_proxy_pro.Ghost.{Ghost, Env, stamp_record}
use g_proxy_pro.Tcp.{FullConn, slot_acquire, tcp_slotted}
use g_proxy_pro.Tcp.Life.{close, release_java, Shared, unref}
use g_proxy_pro.Tcp.Life.Worker.{unlink}

-- A registration with epoll of a connection that is handed over; closing a descriptor ends its own.
pub record Added : Type 0 where
  pub fd : ℕ
  pub word : ℕ

pub record Engine : Type 0 where
  pub table : Table FullConn
  pub shared : Shared
  pub ghost : Ghost
  pub added : List Added

-- `add` is what `epoll_ctl` answers for a descriptor, its events and its word.
pub record Circumstances : Type 0 where
  pub now : ℕ
  pub c2t_given : Bool
  pub t2c_given : Bool
  pub stopping : Bool
  pub add : ℕ → ℕ → ℕ → Bool
  pub bits : EpollBits
  pub files : Env

-- A write through `full`.
abbrev pub put : FullConn → Table FullConn → Table FullConn
put c t = record t { slots = set t.slots c.slot c }

-- `conn_unref`, with the slot that it may release.
release_slot : Option ℕ → Engine → Option Engine
release_slot none g = some g
release_slot (some i) g = do t ← release g.table i; some (record g { table = t })

pub drop_ref : FullConn → Engine → Option Engine
drop_ref c g =
    let (c', s', slot) = unref c g.shared in
    release_slot slot (record g { table = put c' g.table; shared = s' })

-- No slot is free.
refuse : ℕ → ℕ → Engine → Engine
refuse client target g = record g {
  shared = record g.shared {
    conn_count = g.shared.conn_count - 1;
    effects = g.shared.effects ++ release_java target ∷ close client ∷ close target ∷ [];
  };
}

-- Whether the connection is registered in the end.
abbrev pub given_up : Option Engine → Option (Bool × Engine)
given_up none = none
given_up (some g) = some (false, g)

module _ (w : Circumstances) (widx client target : ℕ) where
  abbrev pub events : ℕ
  events = bit_or w.bits.epollin w.bits.epollrdhup

  abbrev pub target_word : FullConn → ℕ
  target_word c = bit_or c.ep_u64 target_flag

  -- Under the lock: the list, then the two registrations.
  register : FullConn → Engine → Option (Bool × Engine)
  register c g =
      let s1 : Shared = record g.shared { list = c.slot ∷ g.shared.list } in
      let ok = w.add client events c.ep_u64 && w.add target events (target_word c) in
      let gone : FullConn = record c { closed = true } in
      let up : FullConn = record c { registered = true } in
      let rolled_back = drop_ref gone (record g { shared = unlink gone s1 }) in
      if not ok
      then given_up rolled_back
      else some (
        true,
        record g {
          table = put up g.table;
          shared = s1;
          ghost = stamp_record w.files g.ghost c.ep_u64 (some client) (some target) widx;
          added =
              g.added
              ++ record { fd = client; word = c.ep_u64 }
                ∷ record { fd = target; word = target_word c }
                ∷ [];
        },
      )

  -- The slot's memory as it is before the lock is taken.
  abbrev pub filled : ℕ → FullConn → FullConn
  filled slot full = record full {
    refs = 1;
    registered = false;
    finalized = false;
    widx = widx;
    magic = conn_magic;
    ep_u64 = event_id full.gen slot;
    client_fd = some client;
    target_fd = some target;
    has_c2t_buf = w.c2t_given;
    has_t2c_buf = w.t2c_given;
  }

  abbrev pub started : FullConn → FullConn
  started c = record c {
    last_active = w.now;
    closed = false;
    client_eof = false;
    eof_since = 0;
    target_eof_since = 0;
    c2t = [];
    c2t_off = 0;
    t2c = [];
    t2c_off = 0;
    client_events = events;
    target_events = events;
  }

  set_up : ℕ → FullConn → Engine → Option (Bool × Engine)
  set_up slot full g =
      let c = filled slot full in
      if not (w.c2t_given && w.t2c_given)
      then given_up (drop_ref c g)
      else if w.stopping
      then given_up (drop_ref (started c) g)
      else register (started c) g

  with_slot : Option ℕ → Engine → Option (Bool × Engine)
  with_slot none g = some (false, refuse client target g)
  with_slot (some slot) g = do full ← get_elem? g.table.slots slot; set_up slot full g

  pub handoff : Engine → Option (Bool × Engine)
  handoff g = do (slot, t) ← slot_acquire g.table; with_slot slot (record g { table = t })
