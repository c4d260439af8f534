-- ===== src/Event/Tests.antt =====
-- Event words of slot 5 at generation 3.
use g_proxy_pro.Base.{ℕ, ◌≡◌, ◌↔◌, arith, true, false}
use g_proxy_pro.Event.Conn
use g_proxy_pro.Event.Udp
use g_proxy_pro.Event.Codec.{conn_decode-event_id, udp_decode-role_event_id, udp_reserved}

conn_decode-event_id_example :
    (Conn.decode (Conn.event_id 3 5) ≡ record { sidx = 5; egen = 3; is_target = false })
    × (Conn.decode (Conn.target_event_id 3 5) ≡ record { sidx = 5; egen = 3; is_target = true })
conn_decode-event_id_example = conn_decode-event_id 3 5 (omega arith) (omega arith)

udp_decode-role_event_id_example :
    Udp.decode (Udp.role_event_id 3 5 Udp.Role.remote)
    ≡ record { sidx = 5; egen = 3; role = Udp.Role.remote }
udp_decode-role_event_id_example =
    udp_decode-role_event_id 3 5 Udp.Role.remote (omega arith) (omega arith)

udp_reserved_example :
    let first : ℕ = 0 in
    (Udp.is_dns_wake (Udp.role_event_id 0 0 Udp.Role.client) ≡ false)
    × ((Udp.role_event_id 0 0 Udp.Role.client ≡ 0)
        ↔ ((first ≡ 0) × (first ≡ 0) × (Udp.Role.client ≡ Udp.Role.client)))
udp_reserved_example = udp_reserved 0 0 Udp.Role.client (omega arith) (omega arith)
