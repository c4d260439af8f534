-- ===== src/Handshake/Tests.antt =====
-- A client "u" with the password "p" that asks for the host "h", port 80.
use g_proxy_pro.Base.{
  ◌⊎◌, ℕ, ◌+◌, ◌≤◌, ◌<◌, ◌≡◌, ◌↔◌, refl, arith, inl, true, some, List, [], ◌∷◌, ◌++◌, length, take,
  replicate,
}
use g_proxy_pro.Handshake.{
  Auth, set_auth, World, Ntop, Outcome, to_worker, to_udp, Java, handle_handshake,
  max_concurrent_conns,
}
use g_proxy_pro.Handshake.Quiet.{Stored}
use g_proxy_pro.Handshake.Served.{Settled, handle_handshake_lem}
use g_proxy_pro.Handshake.Gate.{Admitted, password_needed}
use g_proxy_pro.Handshake.Serves.{request, opening, named_target, welcomes, handle_handshake_serves}
use g_proxy_pro.Handshake.Config.{Given, set_auth_lem}
use g_proxy_pro.Handshake.Quota.{enter, entering, Run, here, next, no_conns, Run-quota}

abbrev auth : Auth
auth = record { enabled = true; user = b'u' ∷ []; pass = b'p' ∷ [] }

auth_set : set_auth (some (b'u' ∷ [])) (some (b'p' ∷ [])) ≡ auth
unfolding set_auth
auth_set = refl

auth-Stored : Stored auth
auth-Stored = record { user = omega arith; pass = omega arith }

abbrev ntop : Ntop
ntop = record { v4 = λ a. a; v6 = λ a. a }

abbrev java : Java
java t = some 7

abbrev world : World
world = record { input = []; sent = []; asked = []; conn_count = 3; auth_fail = 0; conn_fail = 0 }

abbrev asking : World
asking = record world { input = opening auth (2 ∷ []) (request 1 (b'h' ∷ []) 0 80 (9 ∷ [])) }

handle_handshake_example :
    (o : Outcome) × (w' : World) × (handle_handshake auth ntop java asking ≡ some (o, w'))
    × Settled java o asking w'
handle_handshake_example = handle_handshake_lem java auth ntop asking auth-Stored

served_example :
    ((fd : ℕ)
      → java (named_target (b'h' ∷ []) 0 80) ≡ some fd
      → 3 < max_concurrent_conns
      → handle_handshake auth ntop java asking
        ≡ some (
          to_worker fd,
          record world {
            input = 9 ∷ [];
            sent = ([] ++ welcomes auth) ++ (5 ∷ 0 ∷ 0 ∷ 1 ∷ replicate 6 0) ∷ [];
            asked = named_target (b'h' ∷ []) 0 80 ∷ [];
            conn_count = 3 + 1;
          },
        ))
    × ((cmd : ℕ)
        → (cmd ≡ 0x03) ⊎ (cmd ≡ 0x04)
        → handle_handshake auth ntop java
            (record world { input = opening auth (2 ∷ []) (request cmd (b'h' ∷ []) 0 80 (9 ∷ [])) })
          ≡ some (to_udp cmd, record world { input = 9 ∷ []; sent = [] ++ welcomes auth }))
served_example =
    handle_handshake_serves auth auth-Stored (λ on. omega arith) ntop java world (2 ∷ [])
      (b'h' ∷ []) 0 80 (9 ∷ []) (omega arith) (omega arith) (inl refl) (omega arith)

after_asking : World
after_asking = record world {
  input = 9 ∷ [];
  sent = ([] ++ welcomes auth) ++ (5 ∷ 0 ∷ 0 ∷ 1 ∷ replicate 6 0) ∷ [];
  asked = named_target (b'h' ∷ []) 0 80 ∷ [];
  conn_count = 3 + 1;
}

asking_served : handle_handshake auth ntop java asking ≡ some (to_worker 7, after_asking)
unfolding after_asking
asking_served =
    (handle_handshake_serves auth auth-Stored (λ on. omega arith) ntop java world (2 ∷ [])
        (b'h' ∷ []) 0 80 (9 ∷ []) (omega arith) (omega arith) (inl refl) (omega arith)).0
      7 refl (omega arith)

password_needed_example :
    (bs : List ℕ) × (rest : List ℕ) × (asking.input ≡ bs ++ rest) × Admitted auth bs
password_needed_example =
    password_needed auth auth-Stored refl ntop java asking after_asking (to_worker 7) asking_served
      (inl (λ e. cc))

one_conn : Run no_conns (enter no_conns)
one_conn = next here entering

Run-quota_example :
    ((enter no_conns).conn_count ≡ (enter no_conns).placed + (enter no_conns).backing_out)
    × ((enter no_conns).placed ≤ max_concurrent_conns)
    × ((enter no_conns).backing_out ≡ 0
        → (enter no_conns).placed < max_concurrent_conns
        → (enter (enter no_conns)).placed ≡ (enter no_conns).placed + 1)
Run-quota_example = Run-quota {q = enter no_conns} one_conn

set_auth_example :
    let auth = set_auth (some (b'u' ∷ [])) (some (b'p' ∷ [])) in
    Stored auth
    × ((auth.enabled ≡ true) ↔ (Given (some (b'u' ∷ [])) × Given (some (b'p' ∷ []))))
    × (auth.enabled ≡ true → 0 < length auth.user)
    × ((u p : List ℕ)
        → some (b'u' ∷ []) ≡ some u
        → some (b'p' ∷ []) ≡ some p
        → auth.enabled ≡ true
        → (auth.user ≡ take 255 u) × (auth.pass ≡ take 255 p))
set_auth_example = set_auth_lem (some (b'u' ∷ [])) (some (b'p' ∷ []))
