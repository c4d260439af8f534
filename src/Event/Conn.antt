-- ===== src/Event/Conn.antt =====
-- app/src/main/cpp/conn_state.c and .h.
use g_proxy_pro.Base.{
  ℕ, ◌-◌, ◌*◌, ◌/◌, ◌%◌, ◌^◌, bit_and, bit_or, Bool, not, ◌||◌, leb, ◌==◌, if◌then◌else◌,
}

abbrev pub conn_magic : ℕ
conn_magic = 0x5EEDF00D

abbrev pub target_flag : ℕ
target_flag = 2 ^ 31

-- `conn_event_disp_t`
pub data Disposition : Type 0 where
  process inactive stale wrong_worker not_ready : Disposition

-- An `int` is its pattern of 32 bits: it is negative from 2^31 on.
unfoldable pub bad_slot : ℕ → ℕ → Bool
bad_slot sidx slot_count = leb (2 ^ 31) sidx || leb slot_count sidx

unfoldable pub check_slot : ℕ → ℕ → ℕ → Bool → ℕ → ℕ → Bool → Bool → Disposition
check_slot egen gen_now magic slot_state widx my_widx closed registered =
    if not slot_state
    then Disposition.inactive
    else if not (egen == gen_now) || not (magic == conn_magic)
    then Disposition.stale
    else if not (widx == my_widx)
    then Disposition.wrong_worker
    else if closed || not registered
    then Disposition.not_ready
    else Disposition.process

pub record Decoded : Type 0 where
  pub sidx : ℕ
  pub egen : ℕ
  pub is_target : Bool

-- `~CONN_EV_TARGET_FLAG` is `2^64 - 1 - 2^31`.
unfoldable pub decode : ℕ → Decoded
decode raw =
    let key = bit_and raw (2 ^ 64 - 1 - target_flag) in
    record {
      sidx = bit_and key 0xFFFFFFFF % 2 ^ 32;
      egen = key / 2 ^ 32 % 2 ^ 32;
      is_target = not (bit_and raw target_flag == 0);
    }

-- `((uint64_t)gen << 32) | (uint32_t)slot`, as `handoff_to_worker` sets `ep_u64`.
unfoldable pub event_id : ℕ → ℕ → ℕ
event_id gen slot = bit_or (gen * 2 ^ 32 % 2 ^ 64) (slot % 2 ^ 32)

-- The word registered for the target's descriptor.
unfoldable pub target_event_id : ℕ → ℕ → ℕ
target_event_id gen slot = bit_or (event_id gen slot) target_flag
