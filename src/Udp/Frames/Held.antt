-- ===== src/Udp/Frames/Held.antt =====
-- What a session holds of its stream: the invariant between two rounds of `udp_client_data_event`.
use mathlib.Core.List.{append_assoc}
use g_proxy_pro.Base.{
  ℕ, zero, suc, ◌+◌, ◌≤◌, ◌<◌, ◌≡◌, refl, sym, ap, ◌∙◌, arith, some, List, [], ◌∷◌, ◌++◌, length,
  take, write_bytes,
}
use g_proxy_pro.Proto.{udp_tcp_frame_len}
use g_proxy_pro.Udp.Frames.{Frame, Input, buffer_size}

-- What a write of the bytes behind the first `off` leaves of the buffer's front.
pub write_take :
    (buf : List ℕ) (off : ℕ) (bs : List ℕ) (n : ℕ)
    → n ≡ off + length bs
    → n ≤ length buf
    → (buf' : List ℕ) × (write_bytes buf off bs ≡ some buf')
      × (length buf' ≡ length buf)
      × (take n buf' ≡ take off buf ++ bs)
unfolding write_bytes
write_take buf zero [] zero e h = (buf, refl, refl, refl)
write_take buf zero [] (suc n) e h = absurd (omega arith)
write_take [] zero (x ∷ xs) n e h = absurd (omega arith)
write_take (b ∷ buf) zero (x ∷ xs) zero e h = absurd (omega arith)
write_take (b ∷ buf) zero (x ∷ xs) (suc n) e h =
    let (r, w, l, t) = write_take buf zero xs n (omega arith) (omega arith) in
    (x ∷ r, rw w refl, ap suc l, ap (λ z. x ∷ z) t)
write_take [] (suc off) xs n e h = absurd (omega arith)
write_take (b ∷ buf) (suc off) xs zero e h = absurd (omega arith)
write_take (b ∷ buf) (suc off) xs (suc n) e h =
    let (r, w, l, t) = write_take buf off xs n (omega arith) (omega arith) in
    (b ∷ r, rw w refl, ap suc l, ap (λ z. b ∷ z) t)

-- The bytes of frames.
abbrev pub wire : List Frame → List ℕ
wire [] = []
wire (f ∷ fs) = f.b0 ∷ f.b1 ∷ (f.body ++ wire fs)

pub wire-append : (fs gs : List Frame) → wire (fs ++ gs) ≡ wire fs ++ wire gs
wire-append [] gs = refl
wire-append (f ∷ fs) gs =
    ap (λ l. f.b0 ∷ f.b1 ∷ l)
      (ap (λ l. f.body ++ l) (wire-append fs gs) ∙ sym (append_assoc f.body (wire fs) (wire gs)))

-- The length that a frame says is that of its datagram, and is accepted.
abbrev pub Sized : List Frame → Type 0
Sized [] = Unit {0}
Sized (f ∷ fs) = (udp_tcp_frame_len f.b0 f.b1 buffer_size ≡ some (length f.body)) × Sized fs

pub Sized-append : (fs : List Frame) (f : Frame) → Sized fs → Sized (f ∷ []) → Sized (fs ++ f ∷ [])
Sized-append [] f s t = t
Sized-append (g ∷ fs) f (h, s) t = (h, Sized-append fs f s t)

module _ {K D : Type 0} where
  -- What has been received is the frames so far and, behind them, what is held of the next one.
  pub record Framed (s : Input K D) : Type 0 where
    pub buf : List ℕ
    pub has_buf : s.conn.in_buf ≡ some buf
    pub room : buffer_size ≤ length buf
    pub two : length s.conn.len_bytes ≡ 2
    pub len_in : s.conn.len_got ≤ 2
    pub fresh : s.conn.len_got < 2 → s.conn.frame_got ≡ 0
    pub stream :
        s.received
        ≡ wire s.frames ++ (take s.conn.len_got s.conn.len_bytes ++ take s.conn.frame_got buf)
    pub sized : Sized s.frames

  -- Between two rounds: once the length is there it is accepted, and not more than that is held.
  abbrev pub Ready : Input K D → Type 0
  Ready s =
      s.conn.len_got ≡ 2
      → (b0 : ℕ) × (b1 : ℕ) × (s.conn.len_bytes ≡ b0 ∷ b1 ∷ [])
        × (udp_tcp_frame_len b0 b1 buffer_size ≡ some s.conn.frame_expect)
        × (s.conn.frame_got ≤ s.conn.frame_expect)
