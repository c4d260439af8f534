-- ===== src/Handshake.antt =====
-- The SOCKS5 handshake of app/src/main/cpp/simple-socks5.c: `socks5_server_set_auth`, `do_auth_check`
-- and `handle_handshake_fd`, a blocking exchange with the client that ends in a closed connection, a
-- TCP connection for a worker, or a UDP session.
-- `recv(.., n, MSG_WAITALL)` either gives all `n` bytes or ends the handshake, so the client is the list
-- of the bytes that it sends in time. The Java side and `inet_ntop` are parameters; a socket option and
-- a `send` that fails change nothing that the handshake looks at, and are left out.
pub mod Quiet
pub mod Gate
pub mod Served
pub mod Serves
pub mod Quota
pub mod Config
mod Tests
use g_proxy_pro.Base.{
  ℕ, zero, suc, ◌+◌, ◌-◌, ◌*◌, ◌^◌, bit_or, Bool, true, false, not, ◌&&◌, ◌||◌, Option, none, some,
  List, [], ◌∷◌, ◌++◌, ltb, leb, ◌==◌, if◌then◌else◌, length, take, drop, get_or, replicate,
}
use g_proxy_pro.Proto.{
  atyp_ipv4, atyp_domain, method_offered, check_credentials, validate_request_header,
  is_supported_cmd, request_addr_len, encode_reply,
}
use g_proxy_pro.Dns.Relay.{c_string}

abbrev pub max_concurrent_conns : ℕ
max_concurrent_conns = 1000

-- `g_auth_enabled`, `g_auth_user` and `g_auth_pass`; a text is its bytes before the first zero byte.
pub record Auth : Type 0 where
  pub enabled : Bool
  pub user : List ℕ
  pub pass : List ℕ

abbrev auth_off : Auth
auth_off = record { enabled = false; user = []; pass = [] }

-- `none` is a null pointer; 255 bytes at most are kept.
pub set_auth : Option (List ℕ) → Option (List ℕ) → Auth
set_auth none pass = auth_off
set_auth (some user) none = auth_off
set_auth (some []) (some pass) = auth_off
set_auth (some (u ∷ user)) (some []) = auth_off
set_auth (some (u ∷ user)) (some (p ∷ pass)) = record {
  enabled = true;
  user = take 255 (u ∷ user);
  pass = take 255 (p ∷ pass);
}

-- A call of `request_java_5g_socket`.
pub record Target : Type 0 where
  pub host : List ℕ
  pub port : ℕ

-- What the handshake reads and changes: the client's bytes to come, what was sent to it so far, the
-- targets asked for, and `g_conn_count`, `g_st_auth_fail` and `g_st_conn_fail`.
pub record World : Type 0 where
  pub input : List ℕ
  pub sent : List (List ℕ)
  pub asked : List Target
  pub conn_count : ℕ
  pub auth_fail : ℕ
  pub conn_fail : ℕ

-- `err` is `goto err`, `fault` an access outside a buffer.
pub data Res (A : Type 0) : Type 0 where
  ok : A → Res A
  err fault : Res A

abbrev pub M : Type 0 → Type 0
M A = World → Res A × World

abbrev pub after : {A B : Type 0} → Res A → World → (A → M B) → Res B × World
after (ok a) w f = f a w
after err w f = (err, w)
after fault w f = (fault, w)

infixl 5 ◌>>=◌ ◌>>◌
abbrev pub ◌>>=◌ : {A B : Type 0} → M A → (A → M B) → M B
◌>>=◌ m f w = after (m w).0 (m w).1 f

abbrev pub ◌>>◌ : {B : Type 0} → M (Unit {0}) → M B → M B
m >> k = m >>= λ _. k

abbrev pub pure : {A : Type 0} → A → M A
pure a w = (ok a, w)

unfoldable pub guard : Bool → M (Unit {0})
guard true w = (ok tt, w)
guard false w = (err, w)

-- A result whose `none` is an access outside a buffer.
unfoldable pub in_bounds : {A : Type 0} → Option A → M A
in_bounds none w = (fault, w)
in_bounds (some a) w = (ok a, w)

-- A C result: `none` is -1.
unfoldable pub or_err : {A : Type 0} → Option A → M A
or_err none w = (err, w)
or_err (some a) w = (ok a, w)

unfoldable pub recv_all : ℕ → M (List ℕ)
recv_all n w =
    if leb n (length w.input)
    then (ok (take n w.input), record w { input = drop n w.input })
    else (err, record w { input = [] })

unfoldable pub send : List ℕ → M (Unit {0})
send bs w = (ok tt, record w { sent = w.sent ++ bs ∷ [] })

unfoldable pub count_auth_fail : M (Unit {0})
count_auth_fail w = (ok tt, record w { auth_fail = w.auth_fail + 1 })

-- Reads inside what `recv_all` gave.
abbrev pub byte : ℕ → List ℕ → ℕ
byte i bs = get_or bs i 0

-- The password, which may be empty.
recv_pass : ℕ → M (List ℕ)
recv_pass plen = if ltb 0 plen then recv_all plen else pure []

-- The result 0 is true and -1 false, unless the function has returned -1 before.
pub do_auth_check : List ℕ → List ℕ → M Bool
do_auth_check auth_user auth_pass = do
  head ← recv_all 2
  guard (byte 0 head == 0x01)
  guard (not (byte 1 head == 0 || ltb 255 (byte 1 head)))
  user ← recv_all (byte 1 head)
  len ← recv_all 1
  guard (not (ltb 255 (byte 0 len)))
  pass ← recv_pass (byte 0 len)
  same ← in_bounds (check_credentials user (byte 1 head) pass (byte 0 len) auth_user auth_pass)
  send (if same then 0x01 ∷ 0x00 ∷ [] else 0x01 ∷ 0x01 ∷ [])
  pure same

-- `do_auth_check(..) != 0`, whichever of its returns it was, is counted.
counted : Res Bool → M (Unit {0})
counted (ok true) = pure tt
counted (ok false) = count_auth_fail >> guard false
counted err = count_auth_fail >> guard false
counted fault = in_bounds none

authenticate : Auth → M (Unit {0})
authenticate auth w = let (r, w') = do_auth_check auth.user auth.pass w in counted r w'

-- The answer to the client's methods.
choose : Auth → Bool → M (Unit {0})
choose auth offered =
    if not offered
    then (do count_auth_fail; send (0x05 ∷ 0xff ∷ []); guard false)
    else if auth.enabled
    then (do send (0x05 ∷ 0x02 ∷ []); authenticate auth)
    else send (0x05 ∷ 0x00 ∷ [])

abbrev pub desired_method : Auth → ℕ
desired_method auth = if auth.enabled then 0x02 else 0x00

-- The greeting, up to the request.
pub greet : Auth → M (Unit {0})
greet auth = do
  head ← recv_all 2
  guard (byte 0 head == 0x05)
  guard (not (byte 1 head == 0 || ltb 255 (byte 1 head)))
  methods ← recv_all (byte 1 head)
  offered ← in_bounds (method_offered methods (byte 1 head) (desired_method auth))
  choose auth offered

-- `inet_ntop`, of an IPv4 address first.
pub record Ntop : Type 0 where
  pub v4 : List ℕ → List ℕ
  pub v6 : List ℕ → List ℕ

recv_domain : ℕ → M (List ℕ)
recv_domain atyp = do len ← recv_all 1; n ← or_err (request_addr_len atyp (byte 0 len)); recv_all n

recv_literal : Ntop → ℕ → M (List ℕ)
recv_literal ntop atyp = do
  n ← or_err (request_addr_len atyp 0)
  addr ← recv_all n
  pure (if atyp == atyp_ipv4 then ntop.v4 addr else ntop.v6 addr)

pub recv_host : Ntop → ℕ → M (List ℕ)
recv_host ntop atyp = if atyp == atyp_domain then recv_domain atyp else recv_literal ntop atyp

pub record Request : Type 0 where
  pub cmd : ℕ
  pub target : Target

pub recv_request : Ntop → M Request
recv_request ntop = do
  head ← recv_all 4
  valid ← in_bounds (validate_request_header head)
  guard valid
  host ← recv_host ntop (byte 3 head)
  port ← recv_all 2
  pure (record {
    cmd = byte 1 head;
    target = record { host = c_string host; port = bit_or (byte 0 port * 2 ^ 8) (byte 1 port) };
  })

-- `send_zero_reply`
unfoldable pub send_zero_reply : ℕ → M (Unit {0})
send_zero_reply rep = do
  r ← in_bounds (encode_reply (replicate 10 0) 0 rep false (replicate 4 0) (replicate 2 0))
  send (take r.1 r.0)

-- `handoff_to_worker` gets both descriptors, `udp_start_session` the client's and the command; if the
-- client is closed, nobody else has it.
pub data Outcome : Type 0 where
  closed : Outcome
  to_worker : ℕ → Outcome
  to_udp : ℕ → Outcome

-- `request_java_5g_socket(host, port, 0)`; `none` is -1.
abbrev pub Java : Type 0
Java = Target → Option ℕ

answer : Option ℕ → M Outcome
answer none = λ w.
    (do send_zero_reply 0x04; guard false; pure closed)
      (record w { conn_count = w.conn_count - 1; conn_fail = w.conn_fail + 1 })
answer (some fd) = do send_zero_reply 0x00; pure (to_worker fd)

-- A place among the connections is taken before the target is asked for, and given back on failure.
pub connect : Java → Target → M Outcome
connect java t w =
    if leb max_concurrent_conns w.conn_count
    then (err, w)
    else answer (java t) (record w { asked = w.asked ++ t ∷ []; conn_count = w.conn_count + 1 })

pub serve : Java → Request → M Outcome
serve java r =
    if r.cmd == 0x01
    then connect java r.target
    else if is_supported_cmd r.cmd
    then pure (to_udp r.cmd)
    else (do guard false; pure closed)

-- `err:` closes the client.
at_err : Res Outcome → World → Option (Outcome × World)
at_err (ok o) w = some (o, w)
at_err err w = some (closed, w)
at_err fault w = none

exchange : Auth → Ntop → Java → M Outcome
exchange auth ntop java = do greet auth; r ← recv_request ntop; serve java r

pub handle_handshake : Auth → Ntop → Java → World → Option (Outcome × World)
handle_handshake auth ntop java w = let (r, w') = exchange auth ntop java w in at_err r w'
