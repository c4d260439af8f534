-- ===== src/Forward.antt =====
-- app/src/main/cpp/conn_forward.c and .h, and `map_fwd_to_epoll` of simple-socks5.c: which events a
-- relayed connection waits for, and how long a half-closed one is kept.
pub mod Interest
mod Tests
use g_proxy_pro.Base.{
  ℕ, ◌+◌, ◌^◌, bit_and, bit_or, Bool, true, false, not, leb, ◌==◌, if◌then◌else◌,
}

abbrev pub fwd_rdhup : ℕ
fwd_rdhup = 2 ^ 0

abbrev pub fwd_in : ℕ
fwd_in = 2 ^ 1

abbrev pub fwd_out : ℕ
fwd_out = 2 ^ 2

abbrev pub grace_sec : ℕ
grace_sec = 2

-- `c_ev` and `t_ev` where the connection is not closed.
side_interest : Bool → Bool → Bool → ℕ
side_interest eof read_blocked out_pending =
    let ev =
      if not eof
      then (let armed = bit_or 0 fwd_rdhup in
          if not read_blocked then bit_or armed fwd_in else armed)
      else 0 in
    if out_pending then bit_or ev fwd_out else ev

-- The masks of the client's and of the target's descriptor.
unfoldable pub interest : Bool → Bool → Bool → Bool → Bool → ℕ × ℕ
unfolding side_interest
interest closed client_eof target_eof c2t_pending t2c_pending =
    if not closed
    then (
      side_interest client_eof c2t_pending t2c_pending,
      side_interest target_eof t2c_pending c2t_pending,
    )
    else (0, 0)

-- `now - eof_since >= grace` without the difference, which may be negative.
unfoldable pub grace_expired : ℕ → ℕ → ℕ → Bool
grace_expired now eof_since grace = if eof_since == 0 then false else leb (eof_since + grace) now

-- The constants of <sys/epoll.h>.
pub record EpollBits : Type 0 where
  pub epollrdhup : ℕ
  pub epollin : ℕ
  pub epollout : ℕ

unfoldable pub map_fwd_to_epoll : EpollBits → ℕ → ℕ
map_fwd_to_epoll k fwd =
    let e0 : ℕ = if not (bit_and fwd fwd_rdhup == 0) then bit_or 0 k.epollrdhup else 0 in
    let e1 = if not (bit_and fwd fwd_in == 0) then bit_or e0 k.epollin else e0 in
    if not (bit_and fwd fwd_out == 0) then bit_or e1 k.epollout else e1
