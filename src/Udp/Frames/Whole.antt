-- ===== src/Udp/Frames/Whole.antt =====
-- However `recv` cuts the stream, the frames are those of the stream, whole and in order.
use mathlib.Core.List.{append-nil}
use g_proxy_pro.Base.{
  subst, ℕ, zero, suc, ◌-◌, ◌≤◌, ◌<◌, ◌≡◌, refl, sym, ap, subst, ◌∙◌, arith, inl, inr, true, Option,
  none, some, List, [], ◌∷◌, ◌++◌, ltb, ◌>>=◌, length, take, Bool-cases, length-take,
}
use g_proxy_pro.Proto.{Parsed, udp_parse}
use g_proxy_pro.Proto.Parse.{Reads, udp_parse-Reads}
use g_proxy_pro.Proto.Address.{udp_tcp_frame_len_range}
use g_proxy_pro.Udp.Frames.{
  Stream, Frame, Input, Next, more, stop, Route, buffer_size, got_len, got_body, deliver, finish,
  recv_from, step, go_on, loop,
}
use g_proxy_pro.Udp.Frames.Held.{wire, wire-append, Sized-append, Framed, Ready}
use g_proxy_pro.Udp.Frames.Pieces
use g_proxy_pro.Udp.Frames.Pieces.{recv_facts, got_len-Done, got_body-Done}

module _ {K D : Type 0} where
  module _ (str : Stream K) (route : Route D) (now : ℕ) (Ok : List Frame → D → Type 0)
      (deliver_total : (fs : List Frame) (f : Frame) (p : Option Parsed) (d : D)
        → udp_parse f.body (length f.body) ≡ some p
        → Reads f.body (length f.body) (some p)
        → Ok fs d
        → (d' : D) × (deliver str route now f.body (length f.body) p d ≡ some d')
          × Ok (fs ++ f ∷ []) d') where
    abbrev pub rounds : Input K D → ℕ
    rounds s = Pieces.rounds str route now Ok s

    abbrev Good : Input K D → Type 0
    Good s = Pieces.Good str route now Ok s

    abbrev Done : ℕ → Option (Next K D) → Type 0
    Done n r = Pieces.Done str route now Ok n r

    parse_total :
        (buf : List ℕ) (len : ℕ) (r : Option (Option Parsed))
        → Reads buf len r
        → (p : Option Parsed) × (r ≡ some p) × Reads buf len (some p)
    parse_total buf len none h = absurd h
    parse_total buf len (some p) h = (p, refl, h)

    finish-Done :
        (s : Input K D)
        → Good s
        → s.conn.len_got ≡ 2
        → s.conn.frame_expect ≤ s.conn.frame_got
        → Done (rounds s) (finish str route now s)
    unfolding finish
    finish-Done s (f, g, o) full whole =
        let (b0, b1, e, len, held) = g full in
        let (low, high) = udp_tcp_frame_len_range b0 b1 buffer_size s.conn.frame_expect len in
        let n = s.conn.frame_expect in
        let inside : n ≤ length f.buf = omega (arith, f.room) in
        let body = take n f.buf in
        let fr : Frame = record { b0 = b0; b1 = b1; body = body } in
        let (p, ep, reads) =
          parse_total body (length body) (udp_parse body (length body))
            (udp_parse-Reads body (length body) (omega arith)) in
        let (d', ed, o') = deliver_total s.frames fr p s.routed ep reads o in
        let same : s.conn.frame_got ≡ n = omega arith in
        rw (f.has_buf, e, ep, ed)
          (
            (
              record {
                buf = f.buf;
                has_buf = refl;
                room = f.room;
                two = refl;
                len_in = omega arith;
                fresh = λ _. refl;
                stream =
                    f.stream
                    ∙ one_more s.frames fr s.conn.len_got s.conn.len_bytes s.conn.frame_got f.buf
                        full e (ap (λ m. take m f.buf) same);
                sized =
                    Sized-append s.frames fr f.sized
                      (len ∙ ap some (sym (length-take n f.buf inside)), tt);
              },
              (λ h. absurd (omega arith)),
              o',
            ),
            ground arith,
          )
      where
        one_more :
            (fs : List Frame) (fr : Frame) (lg : ℕ) (lb : List ℕ) (fg : ℕ) (buf : List ℕ)
            → lg ≡ 2
            → lb ≡ fr.b0 ∷ fr.b1 ∷ []
            → take fg buf ≡ fr.body
            → wire fs ++ (take lg lb ++ take fg buf) ≡ wire (fs ++ fr ∷ []) ++ []
        one_more fs fr lg lb fg buf e1 e2 e3 =
            rw (e1, e2, e3)
              (ap (λ l. wire fs ++ (fr.b0 ∷ fr.b1 ∷ l)) (sym (append-nil fr.body))
                ∙ sym (wire-append fs (fr ∷ []))
                ∙ sym (append-nil (wire (fs ++ fr ∷ []))))

    step-Done : (s : Input K D) (m : ℕ) → rounds s ≡ m → Good s → Done m (step str route now s)
    unfolding step
    step-Done s m e good = elim (Bool-cases (ltb s.conn.len_got 2)) [
      | inl short ↦
          let n = 2 - s.conn.len_got in
          let r = recv_from str route now s.kernel s.conn.client_fd n in
          rw short (
            subst (λ m. Done m (got_len str route now s r.0 r.1)) e
              (got_len-Done str route now Ok s r.0 r.1 good (ground arith)
                (λ b bs e. recv_facts str route now Ok s.kernel s.conn.client_fd n b bs e)))
      | inr full ↦
          let two : s.conn.len_got ≡ 2 = ground (arith, good.0.len_in) in
          elim (Bool-cases (ltb s.conn.frame_got s.conn.frame_expect)) [
            | inl part ↦
                let n = s.conn.frame_expect - s.conn.frame_got in
                let r = recv_from str route now s.kernel s.conn.client_fd n in
                rw (full, part)
                  (subst (λ m. Done m (got_body str route now s r.0 r.1)) e
                    (got_body-Done str route now Ok s r.0 r.1 good two
                      (λ b bs e. recv_facts str route now Ok s.kernel s.conn.client_fd n b bs e)))
            | inr whole ↦
                rw (full, whole)
                  (subst (λ m. Done m (finish str route now s)) e
                    (finish-Done s good two (ground arith)))
          ]
    ]

    -- What `loop` leaves: it has stopped.
    abbrev pub Stopped : Option (Next K D) → Type 0
    Stopped none = ⊥
    Stopped (some (more s)) = ⊥
    Stopped (some (stop ok s)) = Framed s × (ok ≡ true → Ready s) × Ok s.frames s.routed

    on_Done :
        (n fuel : ℕ) (r : Option (Next K D))
        → Done n r
        → n ≤ fuel
        → ((s : Input K D) → Good s → rounds s < fuel → Stopped (loop str route now fuel s))
        → Stopped (r >>= λ x. go_on str route now x (loop str route now fuel))
    unfolding go_on
    on_Done n fuel none d h ih = absurd d
    on_Done n fuel (some (more s)) (g, m) h ih = ih s g (omega arith)
    on_Done n fuel (some (stop ok s)) d h ih = d

    -- Let a session be between two rounds with its buffers in place, so that what was received is the
    -- frames so far and what is held of the next one. With more fuel than twice the bytes that come
    -- before `recv` would block, and one, the loop stops without any access outside a buffer, however
    -- the bytes are cut. What was received is again the frames so far, each of the length that its two
    -- bytes say, whole and in order, and behind them what is held; and if the result is 0 the session is
    -- between two rounds again.
    pub loop_lem :
        (fuel : ℕ) (s : Input K D)
        → Framed s
        → Ready s
        → Ok s.frames s.routed
        → rounds s < fuel
        → Stopped (loop str route now fuel s)
    unfolding loop
    loop_lem zero s f g o h = absurd (omega arith)
    loop_lem (suc fuel) s f g o h =
        on_Done (rounds s) fuel (step str route now s) (step-Done s (rounds s) refl (f, g, o))
          (omega arith) (λ s' (f', g', o') m. loop_lem fuel s' f' g' o' m)
