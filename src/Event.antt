-- ===== src/Event.antt =====
-- The words that epoll hands back with an event, and the checks that keep an event of a closed
-- connection away from the slot's next owner: app/src/main/cpp/conn_state.c and udp_conn.c with their
-- headers. A `uint64_t` is a number below 2^64.
pub mod Conn
pub mod Udp
pub mod Words
pub mod Codec
pub mod Guard
mod Tests
