-- ===== src/Lib.antt =====
-- The native SOCKS5 proxy engine of 5G Proxy Pro (app/src/main/cpp): pure protocol functions, an epoll
-- engine for TCP connections and one for UDP sessions, and what keeps both safe from stale events.
--
-- Proto: socks5_protocol.c and .h, all functions, over lists of bytes.
-- Sockaddr: `same_ip`, `build_sockaddr` and `sockaddr_from_ip_port` of simple-socks5.c.
-- Event: the words that epoll hands back, and the checks before one is processed: conn_state.c and .h
--   (Event.Conn), udp_conn.c and .h (Event.Udp).
-- Forward: conn_forward.c and .h, and `map_fwd_to_epoll` of simple-socks5.c.
-- Ghost: ghost_purge.c and .h, `stuck_track` being `ghost_stuck_track`.
-- Slots: the two slot tables of simple-socks5.c (`slot_acquire`, `udp_slot_acquire`, ..), for any type of
--   connections that has a generation.
-- Ring: the two bounded queues of simple-socks5.c, `g_dns_queue` and the jobs of a `job_pool_t`.
-- Dns: host names in UDP frames: udp_dns.c and .h, the cache `g_dns_cache` (Dns.Cache), and what the
--   UDP worker and the resolver threads do (Dns.Relay: `udp_route_frame`, `udp_dns_defer`,
--   `udp_dns_drain`, ..).
-- Pool: `job_pool_t` and its functions.
-- Udp: `udp_conn_t` and its slot table; Udp.Session is `udp_conn_unref`, `udp_conn_finalize`,
--   `udp_flush_out`, `udp_ctrl_event` and `udp_update_events`; Udp.Session.Worker is the scan and the exit
--   of `udp_worker_loop`; Udp.Frames is `udp_client_data_event`, Udp.Local `udp_local_event` and
--   Udp.Remote `udp_remote_event`.
-- Listen: `reconcile_listeners` and what it calls; Listen.Ours is `listener_is_ours`.
-- Tcp: `full_conn_t`, its slot table and `try_send`; Tcp.Relay is the body of `worker_loop_safe` for one
--   event and `update_conn_events`; Tcp.Life is `conn_unref`, `conn_finalize` and the scan's tests;
--   Tcp.Life.Worker is the scan and the exit of `worker_loop_safe`, Tcp.Life.Handoff `handoff_to_worker`.
-- Batch: what the scans and exits of both engines share: dropping references from a bin of fixed size.
-- Handshake: `socks5_server_set_auth`, `do_auth_check` and `handle_handshake_fd`; Handshake.Quota is the
--   count of connections, `g_conn_count`, under interleavings.
-- Base: shared helpers.
--
-- How they interact: `handoff_to_worker` and `udp_start_session` take a slot (Slots), build the event
-- word from its generation and index (Event) and register it; a worker decodes the word, looks at the
-- slot, and processes the event only if the check lets it through. Events that are not let through are
-- counted by Ghost, which takes their descriptors out of the epoll sets. Forward says what a connection
-- waits for after each event. A frame with a host name waits in its session (Udp) until a resolver
-- thread, asked through a Ring, has answered (Dns). Proto and Sockaddr are used by the Handshake, which
-- decides whether `handoff_to_worker` or `udp_start_session` is called, and by the UDP relay.
--
-- Conventions: a byte, a descriptor, a time and a machine integer are natural numbers, and wrap-around
-- is written out where it can happen; the count of connections stops at 0, where the source's int
-- would go below. A buffer is a list. Where an access outside an array or buffer is
-- possible at all, the result is an option whose `none` is that access; a C result of -1 is an option
-- inside it. Differences of times are compared without subtraction. System calls, the resolver of the
-- Java side and `inet_pton` are parameters. Loops run over lists or a counter. Two take fuel: the exit of
-- a worker, one more than the connections in its list, since each batch takes one at least, and the loop
-- over incoming frames, twice the bytes before `recv` would block and two more, since each round takes
-- a byte or ends a frame.
--
-- Not modelled: the start of UDP sessions, the batch of events of a worker, the accept loop, and starting
-- and stopping the server and its threads; jni_bridge.c, which calls into the Java virtual machine; log
-- lines and the texts of statistics; and the Kotlin application.
pub mod Base
pub mod Proto
pub mod Sockaddr
pub mod Event
pub mod Forward
pub mod Ghost
pub mod Slots
pub mod Ring
pub mod Dns
pub mod Pool
pub mod Udp
pub mod Tcp
pub mod Listen
pub mod Handshake
pub mod Batch
