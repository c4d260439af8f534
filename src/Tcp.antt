-- ===== src/Tcp.antt =====
-- The connections of the TCP engine of app/src/main/cpp/simple-socks5.c: their state, and how a worker
-- relays bytes after an event. The kernel is a state with the results of `send`, `recv` and a peek for
-- a closed peer as functions of it. A list of sessions is the worker's list of slots.
pub mod Relay
pub mod Life
mod Tests
use g_proxy_pro.Base.{
  refl, ℕ, zero, suc, ◌+◌, Bool, true, false, Option, none, some, List, [], ◌∷◌, length, drop,
}
use g_proxy_pro.Slots.{Slotted, Table, acquire, release, init}

-- `full_conn_t` without its list links, which are the worker's list. A buffer is the list of its
-- `len` valid bytes, and `none` where it is NULL; a descriptor that is -1 is `none`.
pub record FullConn : Type 0 where
  pub magic : ℕ
  pub client_fd : Option ℕ
  pub target_fd : Option ℕ
  pub has_c2t_buf : Bool
  pub has_t2c_buf : Bool
  pub c2t : List ℕ
  pub c2t_off : ℕ
  pub t2c : List ℕ
  pub t2c_off : ℕ
  pub closed : Bool
  pub client_eof : Bool
  pub eof_since : ℕ
  pub target_eof_since : ℕ
  pub client_events : ℕ
  pub target_events : ℕ
  pub refs : ℕ
  pub finalized : Bool
  pub registered : Bool
  pub last_active : ℕ
  pub widx : ℕ
  pub slot : ℕ
  pub gen : ℕ
  pub ep_u64 : ℕ

-- All fields 0, then generation and slot are set; so both descriptors are 0.
abbrev pub wiped : ℕ → ℕ → FullConn
wiped gen slot = record {
  magic = 0;
  client_fd = some 0;
  target_fd = some 0;
  has_c2t_buf = false;
  has_t2c_buf = false;
  c2t = [];
  c2t_off = 0;
  t2c = [];
  t2c_off = 0;
  closed = false;
  client_eof = false;
  eof_since = 0;
  target_eof_since = 0;
  client_events = 0;
  target_events = 0;
  refs = 0;
  finalized = false;
  registered = false;
  last_active = 0;
  widx = 0;
  slot = slot;
  gen = gen;
  ep_u64 = 0;
}

instance abbrev pub tcp_slotted : Slotted FullConn
tcp_slotted = record {
  gen_of = λ c. c.gen;
  blank = wiped;
  with_gen = λ c gen. record c { gen = gen };
  gen_of-blank = λ gen slot. refl;
  gen_of-with_gen = λ c gen. refl;
}

abbrev pub slot_acquire : Table FullConn → Option (Option ℕ × Table FullConn)
slot_acquire t = acquire t

abbrev pub slot_release : Table FullConn → ℕ → Option (Table FullConn)
slot_release t idx = release t idx

abbrev pub slots_init : Table FullConn → Table FullConn
slots_init t = init t

-- What `send` says: that it took so many bytes more than one, that it would block, or an error.
pub data SendResult : Type 0 where
  took : ℕ → SendResult
  send_again send_failed : SendResult

-- What `recv` says: at least one byte, the end, that it would block, or an error.
pub data RecvResult : Type 0 where
  got : ℕ → List ℕ → RecvResult
  eof recv_again recv_failed : RecvResult

-- The system calls, each with the kernel's state after it. `peek_eof` says whether
-- `recv(fd, &c, 1, MSG_PEEK)` is 0, and `modify` whether `epoll_ctl(.., EPOLL_CTL_MOD, ..)` succeeded.
pub record Sys (K : Type 0) : Type 0 where
  pub send : K → ℕ → List ℕ → SendResult × K
  pub recv : K → ℕ → RecvResult × K
  pub peek_eof : K → ℕ → Bool × K
  pub modify : K → ℕ → ℕ → ℕ → Bool × K

-- -1, 0 and 1 of `try_send`.
pub data TryResult : Type 0 where
  broken pending drained : TryResult

-- What a call of `try_send` left, and the bytes that the kernel took, as many as `*sent_out`.
pub record Tried (K : Type 0) : Type 0 where
  pub result : TryResult
  pub kernel : K
  pub buf : List ℕ
  pub off : ℕ
  pub taken : List ℕ

-- The loop over what is left to send. `n` bytes at its front have been taken already by the last call:
-- `send` takes no more than it is given.
pub record Sending (K : Type 0) : Type 0 where
  pub stop : TryResult
  pub kernel : K
  pub taken : List ℕ

module _ {K : Type 0} (sys : Sys K) where
  pub send_loop : K → ℕ → List ℕ → ℕ → Sending K
  send_loop k fd [] n = record { stop = TryResult.drained; kernel = k; taken = [] }
  send_loop k fd (b ∷ bs) (suc n) =
      let r = send_loop k fd bs n in
      record { stop = r.stop; kernel = r.kernel; taken = b ∷ r.taken }
  send_loop k fd (b ∷ bs) zero =
      let (result, k') = sys.send k fd (b ∷ bs) in
      elim result [
        | SendResult.took n ↦
            let r = send_loop k' fd bs n in
            record { stop = r.stop; kernel = r.kernel; taken = b ∷ r.taken }
        | SendResult.send_again ↦ record { stop = TryResult.pending; kernel = k'; taken = [] }
        | SendResult.send_failed ↦ record { stop = TryResult.broken; kernel = k'; taken = [] }
      ]

  tried : List ℕ → ℕ → TryResult → K → List ℕ → Tried K
  tried buf off TryResult.drained k taken = record {
    result = TryResult.drained;
    kernel = k;
    buf = [];
    off = 0;
    taken = taken;
  }
  tried buf off TryResult.pending k taken = record {
    result = TryResult.pending;
    kernel = k;
    buf = buf;
    off = off + length taken;
    taken = taken;
  }
  tried buf off TryResult.broken k taken = record {
    result = TryResult.broken;
    kernel = k;
    buf = buf;
    off = off + length taken;
    taken = taken;
  }

  pub try_send : K → Option ℕ → List ℕ → ℕ → Tried K
  try_send k none buf off = record {
    result = TryResult.broken;
    kernel = k;
    buf = buf;
    off = off;
    taken = [];
  }
  try_send k (some fd) buf off =
      let r = send_loop k fd (drop off buf) 0 in tried buf off r.stop r.kernel r.taken
