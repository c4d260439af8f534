-- ===== src/Forward/Interest.antt =====
-- What the masks hold on every combination of flags.
use g_proxy_pro.Base.{
  ℕ, ◌+◌, ◌≤◌, ◌≡◌, ◌≢◌, ◌↔◌, refl, arith, bit_and, Bool, true, false, not, ◌&&◌, ◌==◌,
}
use g_proxy_pro.Forward.{fwd_rdhup, fwd_in, fwd_out, side_interest, interest, grace_expired}

-- Whether a mask has a bit.
abbrev pub has : ℕ → ℕ → Bool
has mask bit = not (bit_and mask bit == 0)

side_bits :
    (eof read_blocked out_pending : Bool)
    → let m = side_interest eof read_blocked out_pending in
      (has m fwd_rdhup ≡ not eof)
      × (has m fwd_in ≡ (not eof && not read_blocked))
      × (has m fwd_out ≡ out_pending)
unfolding side_interest
side_bits true true true = (refl, refl, refl)
side_bits true true false = (refl, refl, refl)
side_bits true false true = (refl, refl, refl)
side_bits true false false = (refl, refl, refl)
side_bits false true true = (refl, refl, refl)
side_bits false true false = (refl, refl, refl)
side_bits false false true = (refl, refl, refl)
side_bits false false false = (refl, refl, refl)

-- While a connection is open, each side waits for the peer's half-close until it has come, for data
-- exactly if the peer may still send some and the buffer it goes to is empty, and for room to write
-- exactly if bytes are pending for that side. A closed connection waits for nothing. So no half-closed
-- side stays armed for reading, and pending bytes always have a wake-up.
pub interest_bits :
    (closed client_eof target_eof c2t_pending t2c_pending : Bool)
    → let (c, t) = interest closed client_eof target_eof c2t_pending t2c_pending in
      (has c fwd_rdhup ≡ (not closed && not client_eof))
      × (has c fwd_in ≡ (not closed && (not client_eof && not c2t_pending)))
      × (has c fwd_out ≡ (not closed && t2c_pending))
      × (has t fwd_rdhup ≡ (not closed && not target_eof))
      × (has t fwd_in ≡ (not closed && (not target_eof && not t2c_pending)))
      × (has t fwd_out ≡ (not closed && c2t_pending))
unfolding interest
interest_bits true ce te cp tp = (refl, refl, refl, refl, refl, refl)
interest_bits false ce te cp tp =
    let (c0, c1, c2) = side_bits ce cp tp in
    let (t0, t1, t2) = side_bits te tp cp in (c0, c1, c2, t0, t1, t2)

-- A half-closed connection is due exactly from `grace` seconds after its end of file on; one that is
-- not half-closed never is; and what is due stays due.
pub grace_expired_iff :
    (now later eof_since grace : ℕ)
    → ((grace_expired now eof_since grace ≡ true) ↔ ((eof_since ≢ 0) × (eof_since + grace ≤ now)))
      × (now ≤ later
          → grace_expired now eof_since grace ≡ true
          → grace_expired later eof_since grace ≡ true)
unfolding grace_expired
grace_expired_iff now later eof_since grace =
    (((λ h. ground arith), λ h. ground arith), λ le h. ground arith)
