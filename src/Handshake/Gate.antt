-- ===== src/Handshake/Gate.antt =====
-- What a client has to say to be served when a user and a password are configured.
mod Consumed
use mathlib.Core.List.{append-nil}
use g_proxy_pro.Base.{
  subst, ℕ, ◌≤◌, ◌≡◌, ◌≢◌, ◌⊎◌, inl, inr, refl, sym, ap, ◌∙◌, arith, Bool, true, false, not, ◌||◌,
  Option, none, some, List, [], ◌∷◌, ◌++◌, ltb, leb, ◌==◌, Bool-cases, if◌then◌else◌, length, take,
  drop, take_all,
}
use g_proxy_pro.Proto.{method_offered, check_credentials}
use g_proxy_pro.Proto.Credentials.{Offers, method_offered_iff, check_credentials_iff}
use g_proxy_pro.Handshake.{
  Auth, World, Res, ok, err, fault, M, after, ◌>>=◌, ◌>>◌, pure, guard, in_bounds, recv_all, send,
  count_auth_fail, byte, recv_pass, do_auth_check, counted, authenticate, choose, desired_method,
  greet, Ntop, recv_request, Outcome, closed, Java, serve, at_err, exchange, handle_handshake,
}
use g_proxy_pro.Handshake.Quiet.{Same, Post, Any, Stored, greet-Quiet}
use g_proxy_pro.Handshake.Gate.Consumed.{
  Took, Takes, after-Took, bind-Takes, Given, Silent, recv_all-Takes, guard-Takes, in_bounds-Takes,
  send-Takes, pure-Takes, one_byte, two_bytes,
}

recv_pass-Takes : (n : ℕ) → Takes (Given n) (recv_pass n)
unfolding recv_pass
recv_pass-Takes n = elim (Bool-cases (ltb 0 n)) [
  | inl some_bytes ↦ rw some_bytes (recv_all-Takes n)
  | inr none_left ↦
      rw none_left (pure-Takes (Given n) [] (record { given = refl; count = ground arith }))
]

-- The message of RFC 1929.
abbrev pub credentials : List ℕ → List ℕ → List ℕ
credentials user pass = 0x01 ∷ length user ∷ (user ++ length pass ∷ pass)

abbrev Passed : List ℕ → List ℕ → Bool → List ℕ → Type 0
Passed user pass b bs = b ≡ true → bs ≡ credentials user pass

passed_lem :
    (user pass head u len p : List ℕ)
    → length user ≤ 255
    → length pass ≤ 255
    → length head ≡ 2
    → (byte 0 head == 0x01) ≡ true
    → length u ≡ byte 1 head
    → length len ≡ 1
    → length p ≡ byte 0 len
    → check_credentials u (byte 1 head) p (byte 0 len) user pass ≡ some true
    → head ++ (u ++ (len ++ p)) ≡ credentials user pass
passed_lem user pass head u len p su sp two version lu one lp same =
    let (eu, ep) =
      (check_credentials_iff u p user pass (byte 1 head) (byte 0 len) su sp (omega arith)
          (omega arith)).1.0
        same in
    let fu : u ≡ user = sym (take_all u (byte 1 head) lu) ∙ eu in
    let fp : p ≡ pass = sym (take_all p (byte 0 len) lp) ∙ ep in
    let v : byte 0 head ≡ 1 = ground arith in
    let n : byte 1 head ≡ length user = sym lu ∙ ap length fu in
    let m : byte 0 len ≡ length pass = sym lp ∙ ap length fp in
    rw (two_bytes head two, one_byte len one, v, n, m, fu, fp) refl

do_auth_check-Takes :
    (user pass : List ℕ)
    → length user ≤ 255
    → length pass ≤ 255
    → Takes (Passed user pass) (do_auth_check user pass)
unfolding do_auth_check
do_auth_check-Takes user pass su sp = bind-Takes _ _ _ _ (recv_all-Takes 2) λ head b1 two.
    bind-Takes _ _ _ _ (guard-Takes _) λ _ b2 version.
      bind-Takes _ _ _ _ (guard-Takes _) λ _ b3 sized.
        bind-Takes _ _ _ _ (recv_all-Takes _) λ u b4 lu.
          bind-Takes _ _ _ _ (recv_all-Takes 1) λ len b5 one.
            bind-Takes _ _ _ _ (guard-Takes _) λ _ b6 short.
              bind-Takes _ _ _ _ (recv_pass-Takes _) λ p b7 lp.
                bind-Takes _ _ _ _ (in_bounds-Takes _) λ same b8 checked.
                  bind-Takes _ _ _ _ (send-Takes _) λ _ b9 sent. λ w. (
                    [],
                    refl,
                    λ e.
                        rw
                          (
                            two.given,
                            version.nothing,
                            sized.nothing,
                            lu.given,
                            one.given,
                            short.nothing,
                            lp.given,
                            checked.nothing,
                            sent.nothing,
                            append-nil p,
                          )
                          (passed_lem user pass head u len p su sp two.count version.fact lu.count
                            one.count lp.count (checked.fact ∙ ap some e)),
                  )

-- The methods, of which one is that of the password, and the configured user and password.
abbrev pub Admitted : Auth → List ℕ → Type 0
Admitted auth bs =
    (methods : List ℕ) × Offers 0x02 methods
    × (bs ≡ 0x05 ∷ length methods ∷ (methods ++ credentials auth.user auth.pass))

module _ (auth : Auth) (st : Stored auth) (on : auth.enabled ≡ true) where
  counted-Took :
      (r : Res Bool) (w w1 : World)
      → Took (Passed auth.user auth.pass) r w w1
      → Took (λ _ bs. bs ≡ credentials auth.user auth.pass) (counted r w1).0 w (counted r w1).1
  unfolding counted guard count_auth_fail in_bounds
  counted-Took (ok true) w w1 (bs, e, q) = (bs, e, q refl)
  counted-Took (ok false) w w1 t = tt
  counted-Took err w w1 t = tt
  counted-Took fault w w1 t = tt

  authenticate-Takes : Takes (λ _ bs. bs ≡ credentials auth.user auth.pass) (authenticate auth)
  unfolding authenticate
  authenticate-Takes w =
      let r = do_auth_check auth.user auth.pass w in
      counted-Took r.0 w r.1 (do_auth_check-Takes auth.user auth.pass st.user st.pass w)

  choose-Takes :
      (offered : Bool)
      → Takes
          (λ _ bs. (offered ≡ true) × (bs ≡ credentials auth.user auth.pass))
          (choose auth offered)
  unfolding choose guard count_auth_fail send
  choose-Takes false w = tt
  choose-Takes true w =
      rw
        (ap
          (λ (b : Bool).
            if b then (send (0x05 ∷ 0x02 ∷ []) >> authenticate auth) else send (0x05 ∷ 0x00 ∷ []))
          on)
        (bind-Takes (λ _. Silent (Unit {0}))
          (λ _ bs. (true ≡ true) × (bs ≡ credentials auth.user auth.pass)) (send (0x05 ∷ 0x02 ∷ []))
          (λ _. authenticate auth) (send-Takes (0x05 ∷ 0x02 ∷ []))
          (λ _ b1 sent. λ w1.
            to_goal b1 sent.nothing (authenticate auth w1).0 w1 (authenticate auth w1).1
              (authenticate-Takes w1))
          w)
    where
      to_goal :
          (b1 : List ℕ)
          → b1 ≡ []
          → (r : Res (Unit {0})) (w w1 : World)
          → Took (λ _ bs. bs ≡ credentials auth.user auth.pass) r w w1
          → Took (λ _ bs. (true ≡ true) × (b1 ++ bs ≡ credentials auth.user auth.pass)) r w w1
      to_goal b1 e (ok a) w w1 (bs, f, q) = (bs, f, (refl, rw e q))
      to_goal b1 e err w w1 t = tt
      to_goal b1 e fault w w1 t = tt

  desired_password : desired_method auth ≡ 0x02
  desired_password = ap (λ (b : Bool). if b then 0x02 else 0x00) on

  has_password :
      (methods : List ℕ) (n : ℕ)
      → length methods ≡ n
      → method_offered methods n (desired_method auth) ≡ some true
      → Offers 0x02 methods
  has_password methods n l e =
      let x = method_offered_iff methods [] (desired_method auth) in
      let y = rw (append-nil methods, l) at x in
      elim y [
        | inl (t, o) ↦ subst (λ m. Offers m methods) desired_password o
        | inr (t, o) ↦ absurd (cc)
      ]

  greeted :
      (head methods creds : List ℕ)
      → length head ≡ 2
      → (byte 0 head == 0x05) ≡ true
      → length methods ≡ byte 1 head
      → creds ≡ credentials auth.user auth.pass
      → head ++ (methods ++ creds)
        ≡ 0x05 ∷ length methods ∷ (methods ++ credentials auth.user auth.pass)
  greeted head methods creds two version l e =
      let v : byte 0 head ≡ 5 = ground arith in rw (two_bytes head two, v, ← l, e) refl

  greet-Takes : Takes (λ _. Admitted auth) (greet auth)
  unfolding greet
  greet-Takes =
      bind-Takes _ (λ _. Admitted auth) _ _ (recv_all-Takes 2)
        λ head b1 two. bind-Takes _ _ _ _ (guard-Takes _) λ _ b2 version.
          bind-Takes _ _ _ _ (guard-Takes _) λ _ b3 sized.
            bind-Takes _ _ _ _ (recv_all-Takes _) λ methods b4 l.
              bind-Takes _ _ _ _ (in_bounds-Takes _) λ offered b5 checked. λ w.
                admitted head methods offered b1 b2 b3 b4 b5 two.given two.count version.nothing
                  version.fact sized.nothing l.given l.count checked.nothing checked.fact
                  (choose auth offered w).0 w (choose auth offered w).1 (choose-Takes offered w)
    where
      admitted :
          (head methods : List ℕ) (offered : Bool) (b1 b2 b3 b4 b5 : List ℕ)
          → b1 ≡ head
          → length head ≡ 2
          → b2 ≡ []
          → (byte 0 head == 0x05) ≡ true
          → b3 ≡ []
          → b4 ≡ methods
          → length methods ≡ byte 1 head
          → b5 ≡ []
          → method_offered methods (byte 1 head) (desired_method auth) ≡ some offered
          → (r : Res (Unit {0})) (w w1 : World)
          → Took (λ _ bs. (offered ≡ true) × (bs ≡ credentials auth.user auth.pass)) r w w1
          → Took (λ _ bs. Admitted auth (b1 ++ (b2 ++ (b3 ++ (b4 ++ (b5 ++ bs)))))) r w w1
      admitted head methods offered b1 b2 b3 b4 b5 e1 two e2 v e3 e4 l e5 c (ok a) w w1
            (bs, f, (o, q)) =
          (
            bs,
            f,
            (
              methods,
              has_password methods (byte 1 head) l (c ∙ ap some o),
              rw (e1, e2, e3, e4, e5) (greeted head methods bs two v l q),
            ),
          )
      admitted head methods offered b1 b2 b3 b4 b5 e1 two e2 v e3 e4 l e5 c err w w1 t = tt
      admitted head methods offered b1 b2 b3 b4 b5 e1 two e2 v e3 e4 l e5 c fault w w1 t = tt

  by_greet :
      (r : Res (Unit {0})) (w w1 : World) (f : Unit {0} → M Outcome) (o : Outcome) (w' : World)
      → Took (λ _. Admitted auth) r w w1
      → Post Any r w w1
      → (let x = after r w1 f in at_err x.0 x.1) ≡ some (o, w')
      → (o ≢ closed) ⊎ (w'.asked ≢ w.asked)
      → (bs : List ℕ) × (rest : List ℕ) × (w.input ≡ bs ++ rest) × Admitted auth bs
  unfolding at_err
  by_greet (ok a) w w1 f o w' (bs, e, q) p h served = (bs, w1.input, e, q)
  by_greet err w w1 f o w' t p h (inl open_still) = absurd (open_still (cc h))
  by_greet err w w1 f o w' t p h (inr asked_for) =
      let same : w' ≡ w1 = cc h in absurd (asked_for (rw same p.asked))
  by_greet fault w w1 f o w' t p h served = absurd p

  -- If a user and a password of at most 255 bytes each are configured, then a client that is not closed
  -- at the end of the handshake, or for which the Java side was asked for a target, began with exactly
  -- this: a greeting of version 5 whose list of methods has the one for passwords, and a message with
  -- the configured user and the configured password, in full.
  pub password_needed :
      (ntop : Ntop) (java : Java) (w w' : World) (o : Outcome)
      → handle_handshake auth ntop java w ≡ some (o, w')
      → (o ≢ closed) ⊎ (w'.asked ≢ w.asked)
      → (bs : List ℕ) × (rest : List ℕ) × (w.input ≡ bs ++ rest) × Admitted auth bs
  unfolding handle_handshake exchange
  password_needed ntop java w w' o h served =
      by_greet (greet auth w).0 w (greet auth w).1 (λ _. recv_request ntop >>= serve java) o w'
        (greet-Takes w) (greet-Quiet auth st w) h served
