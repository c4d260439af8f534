-- ===== src/Handshake/Quiet.antt =====
-- What a handshake leaves alone: until the target is asked for, the connections are not counted; and no
-- step reads outside a buffer, whatever the client sends.
use mathlib.Core.List.{append-nil}
use g_proxy_pro.Base.{
  ℕ, ◌≤◌, ◌≡◌, inl, inr, refl, ap, arith, Bool, true, false, Option, none, some, List, [], ◌∷◌,
  ◌++◌, ltb, leb, ◌==◌, if◌then◌else◌, Bool-cases, length, length-take, replicate,
}
use g_proxy_pro.Proto.{atyp_domain, method_offered, check_credentials, validate_request_header}
use g_proxy_pro.Proto.Credentials.{
  method_offered_iff, check_credentials_iff, validate_request_header_iff,
}
use g_proxy_pro.Proto.Encode.{encode_lem}
use g_proxy_pro.Handshake.{
  Auth, World, Res, ok, err, fault, M, after, ◌>>=◌, ◌>>◌, pure, guard, in_bounds, or_err, recv_all,
  send, count_auth_fail, recv_pass, do_auth_check, counted, authenticate, choose, desired_method,
  greet, Ntop, recv_domain, recv_literal, recv_host, recv_request, send_zero_reply,
}

pub record Same (w w' : World) : Type 0 where
  pub conn_count : w'.conn_count ≡ w.conn_count
  pub asked : w'.asked ≡ w.asked
  pub conn_fail : w'.conn_fail ≡ w.conn_fail

abbrev pub Post : {A : Type 0} → (A → Type 0) → Res A → World → World → Type 0
Post P (ok a) w w' = P a × Same w w'
Post P err w w' = Same w w'
Post P fault w w' = ⊥

-- The step is quiet, reads inside its buffers, and a result it gives has the property.
abbrev pub Quiet : {A : Type 0} → (A → Type 0) → M A → Type 0
Quiet P m = (w : World) → Post P (m w).0 w (m w).1

abbrev pub Any : {A : Type 0} → A → Type 0
Any a = Unit {0}

Post-trans :
    {A : Type 0} (P : A → Type 0) (r : Res A) (w w1 w2 : World)
    → Same w w1
    → Post P r w1 w2
    → Post P r w w2
Post-trans P (ok a) w w1 w2 s (p, t) =
    (p, record { conn_count = ground arith; asked = ground arith; conn_fail = ground arith })
Post-trans P err w w1 w2 s t = record {
  conn_count = ground arith;
  asked = ground arith;
  conn_fail = ground arith;
}
Post-trans P fault w w1 w2 s t = t

after-Quiet :
    {A B : Type 0} (P : A → Type 0) (Q : B → Type 0) (r : Res A) (w w1 : World) (f : A → M B)
    → Post P r w w1
    → ((a : A) → P a → Quiet Q (f a))
    → Post Q (after r w1 f).0 w (after r w1 f).1
after-Quiet P Q (ok a) w w1 f (p, s) k = Post-trans Q (f a w1).0 w w1 (f a w1).1 s (k a p w1)
after-Quiet P Q err w w1 f s k = s
after-Quiet P Q fault w w1 f s k = s

pub bind-Quiet :
    {A B : Type 0} (P : A → Type 0) (Q : B → Type 0) (m : M A) (f : A → M B)
    → Quiet P m
    → ((a : A) → P a → Quiet Q (f a))
    → Quiet Q (m >>= f)
bind-Quiet P Q m f q k w = after-Quiet P Q (m w).0 w (m w).1 f (q w) k

Same-self : (w : World) → Same w w
Same-self w = record { conn_count = refl; asked = refl; conn_fail = refl }

pub pure-Quiet : {A : Type 0} (P : A → Type 0) (a : A) → P a → Quiet P (pure a)
pure-Quiet P a p w = (p, Same-self w)

forget-Post :
    {A : Type 0} (P : A → Type 0) (r : Res A) (w w1 : World) → Post P r w w1 → Post Any r w w1
forget-Post P (ok a) w w1 (_, s) = (tt, s)
forget-Post P err w w1 s = s
forget-Post P fault w w1 s = s

forget : {A : Type 0} (P : A → Type 0) (m : M A) → Quiet P m → Quiet Any m
forget P m q w = forget-Post P (m w).0 w (m w).1 (q w)

guard-Quiet : (b : Bool) → Quiet (λ _. b ≡ true) (guard b)
unfolding guard
guard-Quiet true w = (refl, Same-self w)
guard-Quiet false w = Same-self w

recv_all-Quiet : (n : ℕ) → Quiet (λ bs. length bs ≡ n) (recv_all n)
unfolding recv_all
recv_all-Quiet n w = elim (Bool-cases (leb n (length w.input))) [
  | inl room ↦ rw room (
    length-take n w.input (ground arith),
    record { conn_count = refl; asked = refl; conn_fail = refl },
  )
  | inr short ↦ rw short (record { conn_count = refl; asked = refl; conn_fail = refl })
]

send-Quiet : (bs : List ℕ) → Quiet Any (send bs)
unfolding send
send-Quiet bs w = (tt, record { conn_count = refl; asked = refl; conn_fail = refl })

count_auth_fail-Quiet : Quiet Any count_auth_fail
unfolding count_auth_fail
count_auth_fail-Quiet w = (tt, record { conn_count = refl; asked = refl; conn_fail = refl })

or_err-Quiet : {A : Type 0} (o : Option A) → Quiet (λ a. o ≡ some a) (or_err o)
unfolding or_err
or_err-Quiet none w = Same-self w
or_err-Quiet (some a) w = (refl, Same-self w)

in_bounds-Quiet :
    {A : Type 0} (P : A → Type 0) (o : Option A) (a : A) → o ≡ some a → P a → Quiet P (in_bounds o)
unfolding in_bounds
in_bounds-Quiet P o a e p w = rw e (p, Same-self w)

method_offered_total :
    (methods : List ℕ) (n desired : ℕ)
    → length methods ≡ n
    → (b : Bool) × (method_offered methods n desired ≡ some b)
method_offered_total methods n desired e =
    let x = method_offered_iff methods [] desired in
    let y = rw (append-nil methods, e) at x in
    elim y [ inl (t, _) ↦ (true, t) | inr (t, _) ↦ (false, t) ]

validate_total :
    (req : List ℕ) → length req ≡ 4 → (b : Bool) × (validate_request_header req ≡ some b)
validate_total [] e = absurd (omega arith)
validate_total (a ∷ []) e = absurd (omega arith)
validate_total (a ∷ b ∷ []) e = absurd (omega arith)
validate_total (a ∷ b ∷ c ∷ []) e = absurd (omega arith)
validate_total (a ∷ b ∷ c ∷ d ∷ rest) e = elim (validate_request_header_iff a b c d rest).0 [
  | inl t ↦ (true, t)
  | inr t ↦ (false, t)
]

-- What `socks5_server_set_auth` keeps.
pub record Stored (auth : Auth) : Type 0 where
  pub user : length auth.user ≤ 255
  pub pass : length auth.pass ≤ 255

check_total :
    (user pass eu ep : List ℕ) (ulen plen : ℕ)
    → length eu ≤ 255
    → length ep ≤ 255
    → length user ≡ ulen
    → length pass ≡ plen
    → (b : Bool) × (check_credentials user ulen pass plen eu ep ≡ some b)
check_total user pass eu ep ulen plen su sp ru rp =
    elim (check_credentials_iff user pass eu ep ulen plen su sp (omega arith) (omega arith)).0 [
      | inl t ↦ (true, t)
      | inr t ↦ (false, t)
    ]

recv_pass-Quiet : (n : ℕ) → Quiet (λ bs. length bs ≡ n) (recv_pass n)
unfolding recv_pass
recv_pass-Quiet n = elim (Bool-cases (ltb 0 n)) [
  | inl some_bytes ↦ rw some_bytes (recv_all-Quiet n)
  | inr none_left ↦ rw none_left (pure-Quiet {A = List ℕ} (λ bs. length bs ≡ n) [] (ground arith))
]

do_auth_check-Quiet :
    (user pass : List ℕ)
    → length user ≤ 255
    → length pass ≤ 255
    → Quiet Any (do_auth_check user pass)
unfolding do_auth_check
do_auth_check-Quiet user pass hu hp = bind-Quiet _ Any _ _ (recv_all-Quiet 2) λ head two.
    bind-Quiet _ Any _ _ (guard-Quiet _) λ _ _. bind-Quiet _ Any _ _ (guard-Quiet _) λ _ _.
      bind-Quiet _ Any _ _ (recv_all-Quiet _) λ u lu.
        bind-Quiet _ Any _ _ (recv_all-Quiet 1) λ len one.
          bind-Quiet _ Any _ _ (guard-Quiet _) λ _ _.
            bind-Quiet _ Any _ _ (recv_pass-Quiet _) λ p lp.
              let (b, e) = check_total u p user pass _ _ hu hp lu lp in
              bind-Quiet _ Any _ _ (in_bounds-Quiet Any _ b e tt)
                λ same _. bind-Quiet _ Any _ _ (send-Quiet _) λ _ _. pure-Quiet Any same tt

no-Quiet : Quiet Any (guard false)
unfolding guard
no-Quiet w = Same-self w

refusal-Quiet : Quiet Any (count_auth_fail >> guard false)
refusal-Quiet = bind-Quiet _ Any _ _ count_auth_fail-Quiet λ _ _. no-Quiet

refused :
    (w w1 : World)
    → Same w w1
    → let m : M (Unit {0}) = count_auth_fail >> guard false in Post Any (m w1).0 w (m w1).1
refused w w1 s =
    let m : M (Unit {0}) = count_auth_fail >> guard false in
    Post-trans Any (m w1).0 w w1 (m w1).1 s (refusal-Quiet w1)

counted-Quiet :
    (r : Res Bool) (w w1 : World) → Post Any r w w1 → Post Any (counted r w1).0 w (counted r w1).1
unfolding counted
counted-Quiet (ok true) w w1 (_, s) = (tt, s)
counted-Quiet (ok false) w w1 (_, s) = refused w w1 s
counted-Quiet err w w1 s = refused w w1 s
counted-Quiet fault w w1 s = absurd s

authenticate-Quiet : (auth : Auth) → Stored auth → Quiet Any (authenticate auth)
unfolding authenticate
authenticate-Quiet auth st w =
    let r = do_auth_check auth.user auth.pass w in
    counted-Quiet r.0 w r.1 (do_auth_check-Quiet auth.user auth.pass st.user st.pass w)

choose-Quiet : (auth : Auth) → Stored auth → (offered : Bool) → Quiet Any (choose auth offered)
unfolding choose
choose-Quiet auth st false =
    bind-Quiet _ Any _ _ count_auth_fail-Quiet
      λ _ _. bind-Quiet _ Any _ _ (send-Quiet _) λ _ _. no-Quiet
choose-Quiet auth st true = by_mode auth.enabled refl
  where
    by_mode : (enabled : Bool) → auth.enabled ≡ enabled → Quiet Any (choose auth true)
    by_mode true e =
        rw
          (ap
            (λ (b : Bool).
              if b then (send (0x05 ∷ 0x02 ∷ []) >> authenticate auth) else send (0x05 ∷ 0x00 ∷ []))
            e)
          (bind-Quiet _ Any _ _ (send-Quiet _) λ _ _. authenticate-Quiet auth st)
    by_mode false e =
        rw
          (ap
            (λ (b : Bool).
              if b then (send (0x05 ∷ 0x02 ∷ []) >> authenticate auth) else send (0x05 ∷ 0x00 ∷ []))
            e)
          (send-Quiet _)

pub greet-Quiet : (auth : Auth) → Stored auth → Quiet Any (greet auth)
unfolding greet
greet-Quiet auth st = bind-Quiet _ Any _ _ (recv_all-Quiet 2) λ head two.
    bind-Quiet _ Any _ _ (guard-Quiet _) λ _ _. bind-Quiet _ Any _ _ (guard-Quiet _) λ _ _.
      bind-Quiet _ Any _ _ (recv_all-Quiet _) λ methods l.
        let (b, e) = method_offered_total methods _ (desired_method auth) l in
        bind-Quiet _ Any _ _ (in_bounds-Quiet Any _ b e tt)
          λ offered _. choose-Quiet auth st offered

recv_domain-Quiet : (atyp : ℕ) → Quiet Any (recv_domain atyp)
unfolding recv_domain
recv_domain-Quiet atyp =
    bind-Quiet _ Any _ _ (recv_all-Quiet 1) λ len one.
      bind-Quiet _ Any _ _ (or_err-Quiet _) λ n _. forget _ (recv_all n) (recv_all-Quiet n)

recv_literal-Quiet : (ntop : Ntop) (atyp : ℕ) → Quiet Any (recv_literal ntop atyp)
unfolding recv_literal
recv_literal-Quiet ntop atyp =
    bind-Quiet _ Any _ _ (or_err-Quiet _)
      λ n _. bind-Quiet _ Any _ _ (recv_all-Quiet n) λ addr _ w. (tt, Same-self w)

recv_host-Quiet : (ntop : Ntop) (atyp : ℕ) → Quiet Any (recv_host ntop atyp)
unfolding recv_host
recv_host-Quiet ntop atyp = elim (Bool-cases (atyp == atyp_domain)) [
  | inl name ↦ rw name (recv_domain-Quiet atyp)
  | inr literal ↦ rw literal (recv_literal-Quiet ntop atyp)
]

pub recv_request-Quiet : (ntop : Ntop) → Quiet Any (recv_request ntop)
unfolding recv_request
recv_request-Quiet ntop = bind-Quiet _ Any _ _ (recv_all-Quiet 4) λ head four.
    let (b, e) = validate_total head four in
    bind-Quiet _ Any _ _ (in_bounds-Quiet Any _ b e tt) λ valid _.
      bind-Quiet _ Any _ _ (guard-Quiet valid) λ _ _.
        bind-Quiet _ Any _ _ (recv_host-Quiet ntop _)
          λ host _. bind-Quiet _ Any _ _ (recv_all-Quiet 2) λ port two w. (tt, Same-self w)

-- `send_zero_reply` fits its buffer, and sends a reply of ten bytes with the zero address and port.
pub send_zero_reply_lem :
    (rep : ℕ) (w : World)
    → send_zero_reply rep w
      ≡ (ok tt, record w { sent = w.sent ++ (5 ∷ rep ∷ 0 ∷ 1 ∷ replicate 6 0) ∷ [] })
unfolding send_zero_reply send in_bounds
send_zero_reply_lem rep w =
    let e =
      (encode_lem rep false (replicate 4 0) (replicate 2 0) [] (replicate 10 0) [] refl refl
        refl).1 in
    rw e refl
