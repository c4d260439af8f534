-- ===== src/Event/Udp.antt =====
-- app/src/main/cpp/udp_conn.c and .h.
use g_proxy_pro.Base.{
  ℕ, ◌+◌, ◌-◌, ◌*◌, ◌/◌, ◌%◌, ◌^◌, bit_and, bit_or, Bool, false, not, ◌||◌, ltb, leb, ◌==◌,
  if◌then◌else◌,
}

abbrev pub conn_magic : ℕ
conn_magic = 0x5EEDF00E

abbrev pub role_local_flag : ℕ
role_local_flag = 2 ^ 31

abbrev pub role_remote_flag : ℕ
role_remote_flag = 2 ^ 30

abbrev pub role_mask : ℕ
role_mask = bit_or role_local_flag role_remote_flag

-- `udp_fd_role_t`
pub data Role : Type 0 where
  client local remote : Role

abbrev pub dns_wake : ℕ
dns_wake = 0xFFFF_FFFF_FFFF_FFFF

unfoldable pub is_dns_wake : ℕ → Bool
is_dns_wake raw = raw == dns_wake

-- `udp_event_disp_t`
pub data Disposition : Type 0 where
  process inactive stale not_ready : Disposition

-- An `int` is its pattern of 32 bits: it is negative from 2^31 on.
unfoldable pub bad_slot : ℕ → ℕ → Bool
bad_slot sidx slot_count = leb (2 ^ 31) sidx || leb slot_count sidx

pub record Decoded : Type 0 where
  pub sidx : ℕ
  pub egen : ℕ
  pub role : Role

-- `~UDP_EV_ROLE_MASK` is `2^64 - 1 - UDP_EV_ROLE_MASK`.
unfoldable pub decode : ℕ → Decoded
decode raw =
    let role_bits = bit_and raw role_mask in
    let key = bit_and raw (2 ^ 64 - 1 - role_mask) in
    record {
      sidx = bit_and key 0xFFFFFFFF % 2 ^ 32;
      egen = key / 2 ^ 32 % 2 ^ 32;
      role =
          if role_bits == role_local_flag
          then Role.local
          else if role_bits == role_remote_flag
          then Role.remote
          else Role.client;
    }

unfoldable pub check_slot : ℕ → ℕ → ℕ → Bool → Bool → Bool → Disposition
check_slot egen gen_now magic slot_state closed registered =
    if not slot_state
    then Disposition.inactive
    else if not (egen == gen_now) || not (magic == conn_magic)
    then Disposition.stale
    else if closed || not registered
    then Disposition.not_ready
    else Disposition.process

-- Times are seconds, and `now - last_active > timeout_sec` is written without the difference, which
-- may be negative.
unfoldable pub idle_expired : ℕ → ℕ → ℕ → Bool
idle_expired now last_active timeout_sec =
    if last_active == 0 then false else ltb (last_active + timeout_sec) now

-- `((uint64_t)gen << 32) | (uint32_t)slot`, as `udp_start_session` sets `ep_u64`.
unfoldable pub event_id : ℕ → ℕ → ℕ
event_id gen slot = bit_or (gen * 2 ^ 32 % 2 ^ 64) (slot % 2 ^ 32)

-- The words registered for the three descriptors of a session.
unfoldable pub role_event_id : ℕ → ℕ → Role → ℕ
role_event_id gen slot Role.client = event_id gen slot
role_event_id gen slot Role.local = bit_or (event_id gen slot) role_local_flag
role_event_id gen slot Role.remote = bit_or (event_id gen slot) role_remote_flag
