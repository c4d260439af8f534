-- ===== src/Event/Codec.antt =====
-- The two decoders against arithmetic on the word, and what was registered decodes to its parts.
use native.Mathlib.Nat.{zero-add}
use g_proxy_pro.Base.{
  ℕ, ◌+◌, ◌-◌, ◌*◌, ◌/◌, ◌%◌, ◌^◌, ◌<◌, ◌≡◌, ◌↔◌, refl, ap, ◌∙◌, arith, true, false, ◌==◌,
  if◌then◌else◌,
}
use g_proxy_pro.Event.Words.{shift_or, or_flag, and_flag, and_rest, and_low}
use g_proxy_pro.Base.Bits.{bit_and_mask}
use g_proxy_pro.Event.Conn
use g_proxy_pro.Event.Udp
use g_proxy_pro.Event.Udp.{Role}

conn_decode_parts :
    (g f s : ℕ)
    → g < 2 ^ 32
    → f < 2
    → s < 2 ^ 31
    → Conn.decode (g * 2 ^ 32 + (f * 2 ^ 31 + s))
      ≡ record { sidx = s; egen = g; is_target = f == 1 }
unfolding Conn.decode
conn_decode_parts g f s hg hf hs =
    rw
      (
        and_rest 31 g f s hs (omega arith) (omega arith) hg,
        and_flag 31 g f s hs (omega arith) (omega arith) 1 (omega arith),
        and_low g s (omega arith),
        bit_and_mask 1 f (omega arith),
      )
      (ground arith)

udp_decode_parts :
    (g r s : ℕ)
    → g < 2 ^ 32
    → r < 4
    → s < 2 ^ 30
    → Udp.decode (g * 2 ^ 32 + (r * 2 ^ 30 + s)) ≡ record {
      sidx = s;
      egen = g;
      role = if r == 2 then Role.local else if r == 1 then Role.remote else Role.client;
    }
unfolding Udp.decode
udp_decode_parts g r s hg hr hs =
    rw
      (
        and_rest 30 g r s hs (omega arith) (omega arith) hg,
        and_flag 30 g r s hs (omega arith) (omega arith) 3 (omega arith),
        and_low g s (omega arith),
        bit_and_mask 2 r (omega arith),
      )
      (ground arith)

-- Any word of 64 bits decodes to the generation in its upper half, the slot in its 31 low bits, and
-- bit 31 as the target flag. So a decoded slot is never negative as an `int`.
pub conn_decode_lem :
    (raw : ℕ)
    → raw < 2 ^ 64
    → Conn.decode raw
      ≡ record { sidx = raw % 2 ^ 31; egen = raw / 2 ^ 32; is_target = raw / 2 ^ 31 % 2 == 1 }
conn_decode_lem raw h =
    ap Conn.decode whole
    ∙ conn_decode_parts (raw / 2 ^ 32) (raw / 2 ^ 31 % 2) (raw % 2 ^ 31) (omega arith) (omega arith)
        (omega arith)
  where
    whole : raw ≡ raw / 2 ^ 32 * 2 ^ 32 + (raw / 2 ^ 31 % 2 * 2 ^ 31 + raw % 2 ^ 31)
    whole = omega arith

-- What `handoff_to_worker` registers for the two descriptors of a slot below 2^31 decodes to that slot,
-- its generation, and which of the two descriptors it was.
pub conn_decode-event_id :
    (gen slot : ℕ)
    → gen < 2 ^ 32
    → slot < 2 ^ 31
    → (Conn.decode (Conn.event_id gen slot) ≡ record { sidx = slot; egen = gen; is_target = false })
      × (Conn.decode (Conn.target_event_id gen slot)
          ≡ record { sidx = slot; egen = gen; is_target = true })
unfolding Conn.event_id Conn.target_event_id
conn_decode-event_id gen slot hg hs =
    rw (shift_or gen slot hg (omega arith), or_flag 31 1 gen slot hs (omega arith) (omega arith))
      (
        rw zero-add at (conn_decode_parts gen 0 slot hg (omega arith) hs),
        conn_decode_parts gen 1 slot hg (omega arith) hs,
      )

-- What `udp_start_session` registers for the three descriptors of a slot below 2^30 decodes to that
-- slot, its generation and the descriptor's role.
pub udp_decode-role_event_id :
    (gen slot : ℕ) (role : Role)
    → gen < 2 ^ 32
    → slot < 2 ^ 30
    → Udp.decode (Udp.role_event_id gen slot role) ≡ record { sidx = slot; egen = gen; role = role }
unfolding Udp.event_id Udp.role_event_id
udp_decode-role_event_id gen slot Role.client hg hs =
    rw (shift_or gen slot hg (omega arith))
      (rw zero-add at (udp_decode_parts gen 0 slot hg (omega arith) hs))
udp_decode-role_event_id gen slot Role.local hg hs =
    rw (shift_or gen slot hg (omega arith), or_flag 30 2 gen slot hs (omega arith) (omega arith))
      (udp_decode_parts gen 2 slot hg (omega arith) hs)
udp_decode-role_event_id gen slot Role.remote hg hs =
    rw (shift_or gen slot hg (omega arith), or_flag 30 1 gen slot hs (omega arith) (omega arith))
      (udp_decode_parts gen 1 slot hg (omega arith) hs)

event_id_lem :
    (gen slot : ℕ)
    → gen < 2 ^ 32
    → slot < 2 ^ 30
    → (Udp.role_event_id gen slot Role.client ≡ gen * 2 ^ 32 + slot)
      × (Udp.role_event_id gen slot Role.local ≡ gen * 2 ^ 32 + (2 ^ 31 + slot))
      × (Udp.role_event_id gen slot Role.remote ≡ gen * 2 ^ 32 + (2 ^ 30 + slot))
unfolding Udp.event_id Udp.role_event_id
event_id_lem gen slot hg hs = rw (shift_or gen slot hg (omega arith)) (
  refl,
  or_flag 30 2 gen slot hs (omega arith) (omega arith),
  or_flag 30 1 gen slot hs (omega arith) (omega arith),
)

-- No session event of any generation and role is taken for the wake-up of the resolver threads, and
-- one is taken for the shutdown pipe, whose word is 0, exactly if it is the client's of slot 0 at
-- generation 0: generations that start at 1 keep clear of it until they wrap.
pub udp_reserved :
    (gen slot : ℕ) (role : Role)
    → gen < 2 ^ 32
    → slot < 2 ^ 30 - 1
    → (Udp.is_dns_wake (Udp.role_event_id gen slot role) ≡ false)
      × ((Udp.role_event_id gen slot role ≡ 0) ↔ ((gen ≡ 0) × (slot ≡ 0) × (role ≡ Role.client)))
unfolding Udp.is_dns_wake
udp_reserved gen slot Role.client hg hs =
    let (e, _, _) = event_id_lem gen slot hg (omega arith) in
    rw e (ground arith, ((λ h. ground arith), λ h. ground arith))
udp_reserved gen slot Role.local hg hs =
    let (_, e, _) = event_id_lem gen slot hg (omega arith) in
    rw e (ground arith, ((λ h. absurd (omega arith)), λ h. ground arith))
udp_reserved gen slot Role.remote hg hs =
    let (_, _, e) = event_id_lem gen slot hg (omega arith) in
    rw e (ground arith, ((λ h. absurd (omega arith)), λ h. ground arith))
