-- ===== src/Event/Guard.antt =====
-- The order of the checks: which events reach a connection.
use g_proxy_pro.Base.{ℕ, ◌≡◌, ◌↔◌, arith, Bool, true, false}
use g_proxy_pro.Event.Conn
use g_proxy_pro.Event.Udp

-- An event of a TCP slot is processed exactly if the slot is in use, the event's generation is the
-- slot's, the connection is not poisoned, it belongs to this worker, it is not closing, and both its
-- registrations are done.
pub conn_check_slot_iff :
    (egen gen_now magic : ℕ) (slot_state : Bool) (widx my_widx : ℕ) (closed registered : Bool)
    → (Conn.check_slot egen gen_now magic slot_state widx my_widx closed registered
        ≡ Conn.Disposition.process)
      ↔ ((slot_state ≡ true)
          × (egen ≡ gen_now)
          × (magic ≡ Conn.conn_magic)
          × (widx ≡ my_widx)
          × (closed ≡ false)
          × (registered ≡ true))
unfolding Conn.check_slot
conn_check_slot_iff egen gen_now magic slot_state widx my_widx closed registered =
    ((λ h. ground arith), λ h. ground arith)

-- An event of a UDP slot is processed exactly if the slot is in use, the event's generation is the
-- slot's, the session is not poisoned, it is not closing, and its registrations are done.
pub udp_check_slot_iff :
    (egen gen_now magic : ℕ) (slot_state closed registered : Bool)
    → (Udp.check_slot egen gen_now magic slot_state closed registered ≡ Udp.Disposition.process) ↔ (
        (slot_state ≡ true)
        × (egen ≡ gen_now)
        × (magic ≡ Udp.conn_magic)
        × (closed ≡ false)
        × (registered ≡ true))
unfolding Udp.check_slot
udp_check_slot_iff egen gen_now magic slot_state closed registered =
    ((λ h. ground arith), λ h. ground arith)
