-- ===== src/Udp.antt =====
-- The sessions of the UDP engine of app/src/main/cpp/simple-socks5.c: their state, and the functions
-- that relay a datagram (children). The slot table that holds them is an instance of Slots.
pub mod Session
pub mod Frames
pub mod Remote
pub mod Local
mod Tests
use g_proxy_pro.Base.{refl, ℕ, Bool, true, false, Option, none, some, List, [], replicate}
use g_proxy_pro.Sockaddr.{Sockaddr}
use g_proxy_pro.Dns.{Pend, pend_slots}
use g_proxy_pro.Slots.{Slotted, Table, acquire, release, init}

-- `udp_close_kind_t`
pub data CloseKind : Type 0 where
  close_none close_idle close_peer close_io close_proto close_resource close_shutdown
        close_unknown :
      CloseKind

-- `udp_conn_t` without its list links, which are the worker's list, and without the text and `errno`
-- of the log line. A descriptor that is -1 is `none`, as is a buffer that is NULL.
pub record UdpConn : Type 0 where
  pub magic : ℕ
  pub slot : ℕ
  pub cmd : ℕ
  pub gen : ℕ
  pub ep_u64 : ℕ
  pub client_fd : Option ℕ
  pub local_udp_fd : Option ℕ
  pub remote_udp_fd : Option ℕ
  pub in_buf : Option (List ℕ)
  pub out_buf : Option (List ℕ)
  pub peer : Option Sockaddr
  pub client_src : Option Sockaddr
  pub len_bytes : List ℕ
  pub len_got : ℕ
  pub frame_expect : ℕ
  pub frame_got : ℕ
  pub out_len : ℕ
  pub out_off : ℕ
  pub client_events : ℕ
  pub local_events : ℕ
  pub remote_events : ℕ
  pub closed : Bool
  pub close_kind : CloseKind
  pub created : ℕ
  pub refs : ℕ
  pub finalized : Bool
  pub registered : Bool
  pub last_active : ℕ
  pub pend : List Pend
  pub widx : ℕ

abbrev pub no_pend : Pend
no_pend = record { used = false; host = []; port = []; payload = [] }

-- All fields 0, then generation, slot and the three descriptors are set.
abbrev pub wiped : ℕ → ℕ → UdpConn
wiped gen slot = record {
  magic = 0;
  slot = slot;
  cmd = 0;
  gen = gen;
  ep_u64 = 0;
  client_fd = none;
  local_udp_fd = none;
  remote_udp_fd = none;
  in_buf = none;
  out_buf = none;
  peer = none;
  client_src = none;
  len_bytes = replicate 2 0;
  len_got = 0;
  frame_expect = 0;
  frame_got = 0;
  out_len = 0;
  out_off = 0;
  client_events = 0;
  local_events = 0;
  remote_events = 0;
  closed = false;
  close_kind = CloseKind.close_none;
  created = 0;
  refs = 0;
  finalized = false;
  registered = false;
  last_active = 0;
  pend = replicate pend_slots no_pend;
  widx = 0;
}

instance abbrev pub udp_slotted : Slotted UdpConn
udp_slotted = record {
  gen_of = λ u. u.gen;
  blank = wiped;
  with_gen = λ u gen. record u { gen = gen };
  gen_of-blank = λ gen slot. refl;
  gen_of-with_gen = λ u gen. refl;
}

abbrev pub udp_slot_acquire : Table UdpConn → Option (Option ℕ × Table UdpConn)
udp_slot_acquire t = acquire t

abbrev pub udp_slot_release : Table UdpConn → ℕ → Option (Table UdpConn)
udp_slot_release t idx = release t idx

abbrev pub udp_slots_init : Table UdpConn → Table UdpConn
udp_slots_init t = init t
