-- ===== src/Handshake/Serves.antt =====
-- A client that follows the protocol is served.
use mathlib.Core.List.{append-nil, append_assoc}
use g_proxy_pro.Base.{
  length-append, ℕ, zero, suc, length-append, ◌+◌, ◌*◌, ◌^◌, ◌≤◌, ◌<◌, bit_or, ◌≡◌, ◌⊎◌, inl, inr,
  refl, ap, ◌∙◌, arith, Bool, true, false, not, ◌||◌, Option, some, List, [], ◌∷◌, ◌++◌, ltb, leb,
  ◌==◌, if◌then◌else◌, length, take, drop, replicate, take_all,
}
use g_proxy_pro.Proto.{
  atyp_domain, method_offered, check_credentials, request_addr_len, is_supported_cmd,
}
use g_proxy_pro.Proto.Credentials.{
  Offers, method_offered_iff, check_credentials_iff, validate_request_header_iff,
}
use g_proxy_pro.Dns.Relay.{c_string}
use g_proxy_pro.Handshake.{
  is_supported_cmd, send_zero_reply, Auth, Target, World, ok, M, after, ◌>>=◌, ◌>>◌, pure, guard,
  in_bounds, or_err, recv_all, send, recv_pass, do_auth_check, counted, authenticate, choose,
  desired_method, greet, Ntop, recv_domain, recv_host, recv_request, to_worker, to_udp, Java,
  answer, connect, send_zero_reply, choose, serve, at_err, exchange, handle_handshake,
  max_concurrent_conns,
}
use g_proxy_pro.Handshake.Quiet.{Stored, send_zero_reply_lem}

bind_ok :
    {A B : Type 0} (m : M A) (f : A → M B) {w w1 : World} {a : A}
    → m w ≡ (ok a, w1)
    → (m >>= f) w ≡ f a w1
bind_ok m f e = ap (λ r. after r.0 r.1 f) e

then_ok :
    {B : Type 0} (m : M (Unit {0})) (k : M B) {w w1 : World} {a : Unit {0}}
    → m w ≡ (ok a, w1)
    → (m >> k) w ≡ k w1
then_ok m k e = ap (λ r. after r.0 r.1 (λ _. k)) e

take_front : (n : ℕ) (bs rest : List ℕ) → length bs ≡ n → take n (bs ++ rest) ≡ bs
take_front zero [] rest e = refl
take_front (suc n) [] rest e = absurd (omega arith)
take_front zero (b ∷ bs) rest e = absurd (omega arith)
take_front (suc n) (b ∷ bs) rest e = ap (λ l. b ∷ l) (take_front n bs rest (omega arith))

drop_front : (n : ℕ) (bs rest : List ℕ) → length bs ≡ n → drop n (bs ++ rest) ≡ rest
drop_front zero [] rest e = refl
drop_front (suc n) [] rest e = absurd (omega arith)
drop_front zero (b ∷ bs) rest e = absurd (omega arith)
drop_front (suc n) (b ∷ bs) rest e = drop_front n bs rest (omega arith)

recv_ok :
    (n : ℕ) (bs rest : List ℕ) (w : World)
    → length bs ≡ n
    → recv_all n (record w { input = bs ++ rest }) ≡ (ok bs, record w { input = rest })
unfolding recv_all
recv_ok n bs rest w e =
    let room : leb n (length (bs ++ rest)) ≡ true = ground (arith, length-append {0} bs rest) in
    rw (room, take_front n bs rest e, drop_front n bs rest e) refl

guard_ok : (b : Bool) (w : World) → b ≡ true → guard b w ≡ (ok tt, w)
unfolding guard
guard_ok b w e = rw e refl

in_bounds_ok :
    {A : Type 0} (o : Option A) (a : A) (w : World) → o ≡ some a → in_bounds o w ≡ (ok a, w)
unfolding in_bounds
in_bounds_ok o a w e = rw e refl

or_err_ok : {A : Type 0} (o : Option A) (a : A) (w : World) → o ≡ some a → or_err o w ≡ (ok a, w)
unfolding or_err
or_err_ok o a w e = rw e refl

recv_pass_ok :
    (n : ℕ) (bs rest : List ℕ) (w : World)
    → length bs ≡ n
    → recv_pass n (record w { input = bs ++ rest }) ≡ (ok bs, record w { input = rest })
unfolding recv_pass
recv_pass_ok zero [] rest w e = refl
recv_pass_ok zero (b ∷ bs) rest w e = absurd (omega arith)
recv_pass_ok (suc n) bs rest w e =
    let pos : ltb 0 (suc n) ≡ true = ground arith in rw pos (recv_ok (suc n) bs rest w e)

sized : (n : ℕ) → 0 < n → n ≤ 255 → not (n == 0 || ltb 255 n) ≡ true
sized n some_byte short = ground arith

-- What the client sends, and behind it the rest.
abbrev pub with_credentials : List ℕ → List ℕ → List ℕ → List ℕ
with_credentials user pass rest = 0x01 ∷ length user ∷ (user ++ (length pass ∷ (pass ++ rest)))

check_ok :
    (user pass : List ℕ)
    → length user ≤ 255
    → length pass ≤ 255
    → check_credentials user (length user) pass (length pass) user pass ≡ some true
check_ok user pass su sp =
    (check_credentials_iff user pass user pass (length user) (length pass) su sp (omega arith)
        (omega arith)).1.1
      (take_all user (length user) refl, take_all pass (length pass) refl)

do_auth_check_ok :
    (user pass rest : List ℕ) (w : World)
    → 0 < length user
    → length user ≤ 255
    → length pass ≤ 255
    → do_auth_check user pass (record w { input = with_credentials user pass rest })
      ≡ (ok true, record w { input = rest; sent = w.sent ++ (1 ∷ 0 ∷ []) ∷ [] })
unfolding do_auth_check send
do_auth_check_ok user pass rest w some_user su sp =
    bind_ok (recv_all 2) _ (recv_ok 2 (1 ∷ length user ∷ []) _ w refl)
    ∙ then_ok (guard true) _ (guard_ok true _ refl)
    ∙ then_ok (guard (not (length user == 0 || ltb 255 (length user)))) _
        (guard_ok _ _ (sized (length user) some_user su))
    ∙ bind_ok (recv_all (length user)) _ (recv_ok (length user) user _ w refl)
    ∙ bind_ok (recv_all 1) _ (recv_ok 1 (length pass ∷ []) _ w refl)
    ∙ then_ok (guard (not (ltb 255 (length pass)))) _ (guard_ok _ _ (ground arith))
    ∙ bind_ok (recv_pass (length pass)) _ (recv_pass_ok (length pass) pass rest w refl)
    ∙ bind_ok (in_bounds _) _ (in_bounds_ok _ true _ (check_ok user pass su sp))

-- The replies of the greeting.
abbrev pub welcomes : Auth → List (List ℕ)
welcomes auth = if auth.enabled then (5 ∷ 2 ∷ []) ∷ (1 ∷ 0 ∷ []) ∷ [] else (5 ∷ 0 ∷ []) ∷ []

abbrev pub opening : Auth → List ℕ → List ℕ → List ℕ
opening auth methods rest =
    0x05
    ∷ length methods
    ∷ (methods ++ (if auth.enabled then with_credentials auth.user auth.pass rest else rest))

offered_ok :
    (methods : List ℕ) (m : ℕ)
    → Offers m methods
    → method_offered methods (length methods) m ≡ some true
offered_ok methods m o =
    let x = method_offered_iff methods [] m in
    let y = rw (append-nil methods) at x in elim y [ inl (t, _) ↦ t | inr (_, n) ↦ absurd (n o) ]

module _ (auth : Auth) (st : Stored auth) (named : auth.enabled ≡ true → 0 < length auth.user) where
  authenticate_ok :
      (rest : List ℕ) (w : World)
      → auth.enabled ≡ true
      → authenticate auth (record w { input = with_credentials auth.user auth.pass rest })
        ≡ (ok tt, record w { input = rest; sent = w.sent ++ (1 ∷ 0 ∷ []) ∷ [] })
  unfolding authenticate counted
  authenticate_ok rest w on =
      ap (λ r. counted r.0 r.1)
        (do_auth_check_ok auth.user auth.pass rest w (named on) st.user st.pass)

  choose_ok :
      (rest : List ℕ) (w : World) (enabled : Bool)
      → auth.enabled ≡ enabled
      → choose auth true
          (record w { input = if enabled then with_credentials auth.user auth.pass rest else rest })
        ≡ (
          ok tt,
          record w {
            input = rest;
            sent =
                w.sent ++ (if enabled then (5 ∷ 2 ∷ []) ∷ (1 ∷ 0 ∷ []) ∷ [] else (5 ∷ 0 ∷ []) ∷ []);
          },
        )
  unfolding choose send
  choose_ok rest w true e =
      let w1 : World = record w { sent = w.sent ++ (5 ∷ 2 ∷ []) ∷ [] } in
      ap
        (λ (b : Bool).
          (if b then (send (5 ∷ 2 ∷ []) >> authenticate auth) else send (5 ∷ 0 ∷ []))
            (record w { input = with_credentials auth.user auth.pass rest }))
        e
      ∙ authenticate_ok rest w1 e
      ∙ ap (λ (l : List (List ℕ)). (ok tt, record w { input = rest; sent = l }))
          (append_assoc w.sent ((5 ∷ 2 ∷ []) ∷ []) ((1 ∷ 0 ∷ []) ∷ []))
  choose_ok rest w false e =
      ap
        (λ (b : Bool).
          (if b then (send (5 ∷ 2 ∷ []) >> authenticate auth) else send (5 ∷ 0 ∷ []))
            (record w { input = rest }))
        e

  greet_ok :
      (methods rest : List ℕ) (w : World)
      → 0 < length methods
      → length methods ≤ 255
      → Offers (desired_method auth) methods
      → greet auth (record w { input = opening auth methods rest })
        ≡ (ok tt, record w { input = rest; sent = w.sent ++ welcomes auth })
  unfolding greet
  greet_ok methods rest w some_method short o =
      bind_ok (recv_all 2) _ (recv_ok 2 (5 ∷ length methods ∷ []) _ w refl)
      ∙ then_ok (guard true) _ (guard_ok true _ refl)
      ∙ then_ok (guard (not (length methods == 0 || ltb 255 (length methods)))) _
          (guard_ok _ _ (sized (length methods) some_method short))
      ∙ bind_ok (recv_all (length methods)) _ (recv_ok (length methods) methods _ w refl)
      ∙ bind_ok (in_bounds _) (choose auth) (in_bounds_ok _ true _ (offered_ok methods _ o))
      ∙ choose_ok rest w auth.enabled refl

-- The request of a client that names its target.
abbrev pub request : ℕ → List ℕ → ℕ → ℕ → List ℕ → List ℕ
request cmd host p0 p1 rest =
    0x05 ∷ cmd ∷ 0x00 ∷ atyp_domain ∷ length host ∷ (host ++ p0 ∷ p1 ∷ rest)

domain_len : (n : ℕ) → 0 < n → request_addr_len atyp_domain n ≡ some n
unfolding request_addr_len
domain_len n some_byte = ground arith

recv_domain_ok :
    (host rest : List ℕ) (w : World)
    → 0 < length host
    → recv_domain atyp_domain (record w { input = length host ∷ (host ++ rest) })
      ≡ (ok host, record w { input = rest })
unfolding recv_domain
recv_domain_ok host rest w named =
    bind_ok (recv_all 1) _ (recv_ok 1 (length host ∷ []) _ w refl)
    ∙ bind_ok (or_err _) _ (or_err_ok _ (length host) _ (domain_len (length host) named))
    ∙ recv_ok (length host) host rest w refl

recv_request_ok :
    (ntop : Ntop) (cmd : ℕ) (host : List ℕ) (p0 p1 : ℕ) (rest : List ℕ) (w : World)
    → 0 < length host
    → recv_request ntop (record w { input = request cmd host p0 p1 rest }) ≡ (
      ok (record {
        cmd = cmd;
        target = record { host = c_string host; port = bit_or (p0 * 2 ^ 8) p1 };
      }),
      record w { input = rest },
    )
unfolding recv_request recv_host
recv_request_ok ntop cmd host p0 p1 rest w named =
    bind_ok (recv_all 4) _ (recv_ok 4 (0x05 ∷ cmd ∷ 0x00 ∷ atyp_domain ∷ []) _ w refl)
    ∙ bind_ok (in_bounds _) _ (
        in_bounds_ok _ true _
          ((validate_request_header_iff 5 cmd 0 3 []).1.1 (refl, refl, inr (inl refl))))
    ∙ then_ok (guard true) _ (guard_ok true _ refl)
    ∙ bind_ok (recv_domain atyp_domain) _ (recv_domain_ok host (p0 ∷ p1 ∷ rest) w named)
    ∙ bind_ok (recv_all 2) _ (recv_ok 2 (p0 ∷ p1 ∷ []) rest w refl)

serve_tcp :
    (java : Java) (t : Target) (fd : ℕ) (w : World)
    → java t ≡ some fd
    → w.conn_count < max_concurrent_conns
    → serve java (record { cmd = 0x01; target = t }) w ≡ (
      ok (to_worker fd),
      record w {
        sent = w.sent ++ (5 ∷ 0 ∷ 0 ∷ 1 ∷ replicate 6 0) ∷ [];
        asked = w.asked ++ t ∷ [];
        conn_count = w.conn_count + 1;
      },
    )
unfolding serve connect answer
serve_tcp java t fd w given room =
    let free : leb max_concurrent_conns w.conn_count ≡ false = ground arith in
    let w1 : World = record w { asked = w.asked ++ t ∷ []; conn_count = w.conn_count + 1 } in
    rw (free, given)
      (then_ok (send_zero_reply 0x00) (pure (to_worker fd)) (send_zero_reply_lem 0 w1))

serve_udp :
    (java : Java) (t : Target) (cmd : ℕ) (w : World)
    → (cmd ≡ 0x03) ⊎ (cmd ≡ 0x04)
    → serve java (record { cmd = cmd; target = t }) w ≡ (ok (to_udp cmd), w)
unfolding serve is_supported_cmd
serve_udp java t cmd w (inl e) = rw e refl
serve_udp java t cmd w (inr e) = rw e refl

-- What the client asks for by a name.
abbrev pub named_target : List ℕ → ℕ → ℕ → Target
named_target host p0 p1 = record { host = c_string host; port = bit_or (p0 * 2 ^ 8) p1 }

module _ (auth : Auth) (st : Stored auth) (named : auth.enabled ≡ true → 0 < length auth.user)
    (ntop : Ntop) (java : Java) (w : World) (methods host : List ℕ) (p0 p1 : ℕ) (rest : List ℕ)
    (some_method : 0 < length methods) (few : length methods ≤ 255)
    (offered : Offers (desired_method auth) methods) (some_name : 0 < length host) where
  up_to_serve :
      (cmd : ℕ)
      → exchange auth ntop java
          (record w { input = opening auth methods (request cmd host p0 p1 rest) })
        ≡ serve java
            (record { cmd = cmd; target = named_target host p0 p1 })
            (record w { input = rest; sent = w.sent ++ welcomes auth })
  unfolding exchange
  up_to_serve cmd =
      then_ok (greet auth) (recv_request ntop >>= serve java)
        (greet_ok auth st named methods (request cmd host p0 p1 rest) w some_method few offered)
      ∙ bind_ok (recv_request ntop) (serve java) (
          recv_request_ok ntop cmd host p0 p1 rest (record w { sent = w.sent ++ welcomes auth })
            some_name)

  -- A client that offers the method that is wanted among at most 255, says the configured user and
  -- password if there are any, of at most 255 bytes each, and names a host and a port, is served. For
  -- command 1, with fewer than 1000 connections and a socket from the Java side, the pair goes to a
  -- worker: the Java side was asked for exactly that host and port, the client was told each success in
  -- order, one connection more is counted, and what the client sent behind its request is still to be
  -- read. For the commands 3 and 4 the session is started, with nothing sent but the greeting's replies.
  pub handle_handshake_serves :
      ((fd : ℕ)
        → java (named_target host p0 p1) ≡ some fd
        → w.conn_count < max_concurrent_conns
        → handle_handshake auth ntop java
            (record w { input = opening auth methods (request 0x01 host p0 p1 rest) })
          ≡ some (
            to_worker fd,
            record w {
              input = rest;
              sent = (w.sent ++ welcomes auth) ++ (5 ∷ 0 ∷ 0 ∷ 1 ∷ replicate 6 0) ∷ [];
              asked = w.asked ++ named_target host p0 p1 ∷ [];
              conn_count = w.conn_count + 1;
            },
          ))
      × ((cmd : ℕ)
          → (cmd ≡ 0x03) ⊎ (cmd ≡ 0x04)
          → handle_handshake auth ntop java
              (record w { input = opening auth methods (request cmd host p0 p1 rest) })
            ≡ some (to_udp cmd, record w { input = rest; sent = w.sent ++ welcomes auth }))
  unfolding handle_handshake at_err
  handle_handshake_serves = (
    (λ fd given room.
        ap (λ r. at_err r.0 r.1)
          (up_to_serve 0x01
            ∙ serve_tcp java (named_target host p0 p1) fd
                (record w { input = rest; sent = w.sent ++ welcomes auth }) given room)),
    λ cmd udp.
        ap (λ r. at_err r.0 r.1)
          (up_to_serve cmd
            ∙ serve_udp java (named_target host p0 p1) cmd
                (record w { input = rest; sent = w.sent ++ welcomes auth }) udp),
  )
