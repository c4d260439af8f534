-- ===== src/Tcp/Relay/Sending.antt =====
-- `try_send`: what the kernel took and what is left are together what there was.
use g_proxy_pro.Base.{
  ℕ, zero, suc, ◌+◌, ◌≡◌, refl, sym, ap, ◌∙◌, arith, Option, none, some, List, [], ◌∷◌, ◌++◌,
  length, drop,
}
use g_proxy_pro.Tcp.{SendResult, Sys, TryResult, send_loop, tried, try_send}

pub drop_nil : (n : ℕ) → drop {A = ℕ} n [] ≡ []
drop_nil zero = refl
drop_nil (suc n) = refl

drop_prefix : (t r : List ℕ) → drop (length t) (t ++ r) ≡ r
drop_prefix [] r = refl
drop_prefix (x ∷ t) r = drop_prefix t r

pub drop_after :
    (off : ℕ) (buf t r : List ℕ) → drop off buf ≡ t ++ r → drop (off + length t) buf ≡ r
drop_after zero buf t r e =
    let z : 0 + length t ≡ length t = omega arith in
    rw z (ap (λ l. drop (length t) l) e ∙ drop_prefix t r)
drop_after (suc off) [] [] r e = drop_nil (suc off + 0) ∙ e
drop_after (suc off) [] (x ∷ t) r e = absurd cc
drop_after (suc off) (x ∷ buf) t r e =
    let z : suc off + length t ≡ suc (off + length t) = omega arith in
    rw z (drop_after off buf t r e)

module _ {K : Type 0} (sys : Sys K) where
  -- What the kernel took, in order, and what is left.
  pub loop_lem :
      (k : K) (fd : ℕ) (xs : List ℕ) (n : ℕ)
      → let r = send_loop sys k fd xs n in
        (rest : List ℕ) × (xs ≡ r.taken ++ rest) × (r.stop ≡ TryResult.drained → rest ≡ [])
  unfolding send_loop
  loop_lem k fd [] n = ([], refl, λ e. refl)
  loop_lem k fd (b ∷ bs) (suc n) =
      let (rest, e, d) = loop_lem k fd bs n in (rest, ap (λ l. b ∷ l) e, d)
  loop_lem k fd (b ∷ bs) zero =
      by_result (sys.send k fd (b ∷ bs)).0 refl (λ n. loop_lem (sys.send k fd (b ∷ bs)).1 fd bs n)
    where
      by_result :
          (result : SendResult)
          → (sys.send k fd (b ∷ bs)).0 ≡ result
          → ((n : ℕ)
              → let r = send_loop sys (sys.send k fd (b ∷ bs)).1 fd bs n in
                (rest : List ℕ) × (bs ≡ r.taken ++ rest) × (r.stop ≡ TryResult.drained → rest ≡ []))
          → let r = send_loop sys k fd (b ∷ bs) zero in
            (rest : List ℕ) × (b ∷ bs ≡ r.taken ++ rest) × (r.stop ≡ TryResult.drained → rest ≡ [])
      by_result (SendResult.took n) e later =
          let (rest, f, d) = later n in
          (rest, rw (e, send_loop) (ap (λ l. b ∷ l) f), rw (e, send_loop) d)
      by_result SendResult.send_again e later =
          (b ∷ bs, rw (e, send_loop) refl, rw (e, send_loop) (λ q. absurd cc))
      by_result SendResult.send_failed e later =
          (b ∷ bs, rw (e, send_loop) refl, rw (e, send_loop) (λ q. absurd cc))

  tried_lem :
      (buf : List ℕ) (off : ℕ) (stop : TryResult) (k : K) (taken rest : List ℕ)
      → drop off buf ≡ taken ++ rest
      → (stop ≡ TryResult.drained → rest ≡ [])
      → let t = tried sys buf off stop k taken in
        (drop off buf ≡ t.taken ++ drop t.off t.buf)
        × (t.result ≡ TryResult.drained → (t.buf ≡ []) × (t.off ≡ 0))
  unfolding tried
  tried_lem buf off TryResult.drained k taken rest e d =
      (e ∙ ap (λ l. taken ++ l) (d refl), λ q. (refl, refl))
  tried_lem buf off TryResult.pending k taken rest e d =
      (e ∙ ap (λ l. taken ++ l) (sym (drop_after off buf taken rest e)), λ q. absurd cc)
  tried_lem buf off TryResult.broken k taken rest e d =
      (e ∙ ap (λ l. taken ++ l) (sym (drop_after off buf taken rest e)), λ q. absurd cc)

  -- However the kernel cuts what it takes, blocks or fails: the bytes it took are the front of what was
  -- to be sent, those still in the buffer from its offset on are the rest, and if the call says that all
  -- is sent the buffer is empty with its offset reset.
  pub try_send_lem :
      (k : K) (fd : Option ℕ) (buf : List ℕ) (off : ℕ)
      → let t = try_send sys k fd buf off in
        (drop off buf ≡ t.taken ++ drop t.off t.buf)
        × (t.result ≡ TryResult.drained → (t.buf ≡ []) × (t.off ≡ 0))
  unfolding try_send
  try_send_lem k none buf off = (refl, λ q. absurd cc)
  try_send_lem k (some fd) buf off =
      let (rest, e, d) = loop_lem k fd (drop off buf) 0 in
      tried_lem buf off (send_loop sys k fd (drop off buf) 0).stop
        (send_loop sys k fd (drop off buf) 0).kernel (send_loop sys k fd (drop off buf) 0).taken
        rest e d
