-- ===== src/Handshake/Served.antt =====
-- How a handshake ends, whatever the client sends.
use g_proxy_pro.Base.{
  ℕ, ◌+◌, ◌-◌, ◌<◌, ◌≡◌, ◌⊎◌, inl, inr, refl, ap, ◌∙◌, arith, true, false, Option, none, some, [],
  ◌∷◌, ◌++◌, leb, ◌==◌, Bool-cases, replicate,
}
use g_proxy_pro.Proto.{is_supported_cmd}
use g_proxy_pro.Handshake.{
  Auth, Target, World, Res, ok, err, fault, M, after, guard, Ntop, Request, greet, recv_request,
  Outcome, closed, to_worker, to_udp, Java, answer, connect, serve, at_err, exchange,
  handle_handshake, max_concurrent_conns,
}
use g_proxy_pro.Handshake.Quiet.{
  Same, Post, Any, Stored, greet-Quiet, recv_request-Quiet, send_zero_reply_lem,
}

-- A target was asked for and the Java side had no socket for it.
pub record Refused (java : Java) (t : Target) (w w' : World) : Type 0 where
  pub asked : w'.asked ≡ w.asked ++ t ∷ []
  pub none_given : java t ≡ none
  pub conn_fail : w'.conn_fail ≡ w.conn_fail + 1

pub record Connected (java : Java) (fd : ℕ) (t : Target) (w w' : World) : Type 0 where
  pub conn_count : w'.conn_count ≡ w.conn_count + 1
  pub room : w.conn_count < max_concurrent_conns
  pub asked : w'.asked ≡ w.asked ++ t ∷ []
  pub given : java t ≡ some fd
  pub conn_fail : w'.conn_fail ≡ w.conn_fail

abbrev pub Settled : Java → Outcome → World → World → Type 0
Settled java closed w w' =
    (w'.conn_count ≡ w.conn_count) × (Same w w' ⊎ ((t : Target) × Refused java t w w'))
Settled java (to_worker fd) w w' = (t : Target) × Connected java fd t w w'
Settled java (to_udp cmd) w w' = Same w w' × ((cmd ≡ 0x03) ⊎ (cmd ≡ 0x04))

abbrev Ends : Java → World → Option (Outcome × World) → Type 0
Ends java w r = (o : Outcome) × (w' : World) × (r ≡ some (o, w')) × Settled java o w w'

supported :
    (cmd : ℕ) → (cmd == 0x01) ≡ false → is_supported_cmd cmd ≡ true → (cmd ≡ 0x03) ⊎ (cmd ≡ 0x04)
unfolding is_supported_cmd
supported cmd other h = ground arith

module _ (java : Java) where
  answered :
      (t : Target) (w : World) (given : Option ℕ)
      → java t ≡ given
      → w.conn_count < max_concurrent_conns
      → let w1 : World = record w { asked = w.asked ++ t ∷ []; conn_count = w.conn_count + 1 } in
        let r = answer given w1 in Ends java w (at_err r.0 r.1)
  unfolding answer guard at_err
  answered t w none e room =
      let w2 : World = record w {
        asked = w.asked ++ t ∷ [];
        conn_count = w.conn_count + 1 - 1;
        conn_fail = w.conn_fail + 1;
      } in
      (
        closed,
        record w2 { sent = w.sent ++ (5 ∷ 4 ∷ 0 ∷ 1 ∷ replicate 6 0) ∷ [] },
        rw (send_zero_reply_lem 4 w2) refl,
        (omega arith, inr (t, record { asked = refl; none_given = e; conn_fail = refl })),
      )
  answered t w (some fd) e room =
      let w1 : World = record w { asked = w.asked ++ t ∷ []; conn_count = w.conn_count + 1 } in
      (
        to_worker fd,
        record w1 { sent = w.sent ++ (5 ∷ 0 ∷ 0 ∷ 1 ∷ replicate 6 0) ∷ [] },
        rw (send_zero_reply_lem 0 w1) refl,
        (t, record { conn_count = refl; room = room; asked = refl; given = e; conn_fail = refl }),
      )

  quiet_end : (w w' : World) → Same w w' → Ends java w (at_err err w')
  unfolding at_err
  quiet_end w w' s = (closed, w', refl, (s.conn_count, inl s))

  connect_lem : (t : Target) (w : World) → let r = connect java t w in Ends java w (at_err r.0 r.1)
  unfolding connect
  connect_lem t w = elim (Bool-cases (leb max_concurrent_conns w.conn_count)) [
    | inl full ↦
        rw full (quiet_end w w (record { conn_count = refl; asked = refl; conn_fail = refl }))
    | inr room ↦ rw room (answered t w (java t) refl (ground arith))
  ]

  serve_lem : (r : Request) (w : World) → let x = serve java r w in Ends java w (at_err x.0 x.1)
  unfolding serve guard at_err
  serve_lem r w = elim (Bool-cases (r.cmd == 0x01)) [
    | inl tcp ↦ rw tcp (connect_lem r.target w)
    | inr other ↦ elim (Bool-cases (is_supported_cmd r.cmd)) [
      | inl udp ↦
          rw (other, udp)
            (
              to_udp r.cmd,
              w,
              refl,
              (
                record { conn_count = refl; asked = refl; conn_fail = refl },
                supported r.cmd other udp,
              ),
            )
      | inr bad ↦
          rw (other, bad)
            (quiet_end w w (record { conn_count = refl; asked = refl; conn_fail = refl }))
    ]
  ]

  -- What is settled after quiet steps is settled for the whole.
  Settled-quiet :
      (o : Outcome) (w w1 w2 : World) → Same w w1 → Settled java o w1 w2 → Settled java o w w2
  Settled-quiet closed w w1 w2 s (n, inl t) = (
    n ∙ s.conn_count,
    inl (record {
      conn_count = t.conn_count ∙ s.conn_count;
      asked = t.asked ∙ s.asked;
      conn_fail = t.conn_fail ∙ s.conn_fail;
    }),
  )
  Settled-quiet closed w w1 w2 s (n, inr (t, r)) = (
    n ∙ s.conn_count,
    inr (
      t,
      record {
        asked = r.asked ∙ ap (λ xs. xs ++ t ∷ []) s.asked;
        none_given = r.none_given;
        conn_fail = r.conn_fail ∙ ap (λ n. n + 1) s.conn_fail;
      },
    ),
  )
  Settled-quiet (to_worker fd) w w1 w2 s (t, c) = (
    t,
    record {
      conn_count = c.conn_count ∙ ap (λ n. n + 1) s.conn_count;
      room = omega (arith, c.room, s.conn_count);
      asked = c.asked ∙ ap (λ xs. xs ++ t ∷ []) s.asked;
      given = c.given;
      conn_fail = c.conn_fail ∙ s.conn_fail;
    },
  )
  Settled-quiet (to_udp cmd) w w1 w2 s (t, c) = (
    record {
      conn_count = t.conn_count ∙ s.conn_count;
      asked = t.asked ∙ s.asked;
      conn_fail = t.conn_fail ∙ s.conn_fail;
    },
    c,
  )

  Ends-quiet :
      (w w1 : World) (r : Option (Outcome × World)) → Same w w1 → Ends java w1 r → Ends java w r
  Ends-quiet w w1 r s (o, w2, e, t) = (o, w2, e, Settled-quiet o w w1 w2 s t)

  -- A quiet step before what ends.
  after-Ends :
      {A : Type 0} (r : Res A) (w w1 : World) (f : A → M Outcome)
      → Post Any r w w1
      → ((a : A) (w : World) → let x = f a w in Ends java w (at_err x.0 x.1))
      → let x = after r w1 f in Ends java w (at_err x.0 x.1)
  after-Ends (ok a) w w1 f (_, s) k = Ends-quiet w w1 _ s (k a w1)
  after-Ends err w w1 f s k = quiet_end w w1 s
  after-Ends fault w w1 f s k = absurd s

  -- If the configured texts have at most 255 bytes each, a handshake reads inside its buffers whatever
  -- the client sends, and ends in one of four ways. The client is closed, the Java side was asked for
  -- nothing, and no connection and no failure to connect is counted; or the Java side was asked for one
  -- target and had no socket, the client is closed and one failure to connect is counted; or it gave a
  -- socket, there were fewer than 1000 connections, one more is counted now, and the pair goes to a
  -- worker; or a UDP session is started for command 3 or 4, with nothing asked for. Where the client is
  -- closed, as many connections are counted as before.
  pub handle_handshake_lem :
      (auth : Auth) (ntop : Ntop) (w : World)
      → Stored auth
      → (o : Outcome) × (w' : World) × (handle_handshake auth ntop java w ≡ some (o, w'))
        × Settled java o w w'
  unfolding handle_handshake exchange
  handle_handshake_lem auth ntop w st =
      after-Ends (greet auth w).0 w (greet auth w).1 _ (greet-Quiet auth st w) λ _ w1.
        after-Ends (recv_request ntop w1).0 w1 (recv_request ntop w1).1 (serve java)
          (recv_request-Quiet ntop w1) serve_lem
