-- ===== src/Udp/Frames/Pieces.antt =====
-- A piece of a frame's length and a piece of its datagram.
use mathlib.Core.List.{append-nil, append_assoc}
use g_proxy_pro.Base.{
  ℕ, suc, ◌+◌, ◌-◌, ◌*◌, ◌<◌, ◌≡◌, refl, sym, ap, ◌∙◌, arith, inl, inr, true, Option, none, some,
  List, [], ◌∷◌, ◌++◌, ltb, if◌then◌else◌, length, take, Bool-cases, Option-cases,
}
use g_proxy_pro.Proto.{udp_tcp_frame_len}
use g_proxy_pro.Proto.Address.{udp_tcp_frame_len_range}
use g_proxy_pro.Tcp.{RecvResult}
use g_proxy_pro.Udp.{CloseKind}
use g_proxy_pro.Udp.Frames.{
  Stream, Frame, Input, Next, more, stop, Route, buffer_size, failed, begin_body, got_len, got_body,
  recv_from,
}
use g_proxy_pro.Udp.Frames.Held.{write_take, wire, Framed, Ready}

module _ {K D : Type 0} where
  module _ (str : Stream K) (route : Route D) (now : ℕ) (Ok : List Frame → D → Type 0) where
    -- Twice the bytes left, and one for a length that is there.
    abbrev pub rounds : Input K D → ℕ
    rounds s = str.left s.kernel * 2 + (if ltb s.conn.len_got 2 then 0 else 1)

    abbrev pub Good : Input K D → Type 0
    Good s = Framed s × Ready s × Ok s.frames s.routed

    -- After a round that started with `n` rounds to go.
    abbrev pub Done : ℕ → Option (Next K D) → Type 0
    Done n none = ⊥
    Done n (some (more s)) = Good s × (rounds s < n)
    Done n (some (stop ok s)) = Framed s × (ok ≡ true → Ready s) × Ok s.frames s.routed

    pub recv_facts :
        (k : K) (fd : Option ℕ) (n b : ℕ) (bs : List ℕ)
        → (recv_from str route now k fd n).0 ≡ RecvResult.got b bs
        → (length bs < n) × (str.left (recv_from str route now k fd n).1 < str.left k)
    unfolding recv_from
    recv_facts k none n b bs e = absurd cc
    recv_facts k (some fd) n b bs e = (str.recv_room k fd n b bs e, str.recv_left k fd n b bs e)

    two_elems : (bs : List ℕ) → length bs ≡ 2 → (b0 : ℕ) × (b1 : ℕ) × (bs ≡ b0 ∷ b1 ∷ [])
    two_elems [] e = absurd (omega arith)
    two_elems (a ∷ []) e = absurd (omega arith)
    two_elems (a ∷ b ∷ []) e = (a, b, refl)
    two_elems (a ∷ b ∷ c ∷ bs) e = absurd (omega arith)

    begin_body-Done :
        (s : Input K D) (n : ℕ)
        → Framed s
        → Ok s.frames s.routed
        → s.conn.len_got ≡ 2
        → s.conn.frame_got ≡ 0
        → str.left s.kernel * 2 + 1 < n
        → Done n (begin_body str route now s)
    unfolding begin_body
    begin_body-Done s n f o full none_yet h =
        let (b0, b1, e) = two_elems s.conn.len_bytes f.two in
        elim (Option-cases (udp_tcp_frame_len b0 b1 buffer_size)) [
          | inl bad ↦
              rw (e, bad)
                (
                  record {
                    buf = f.buf;
                    has_buf = f.has_buf;
                    room = f.room;
                    two = f.two;
                    len_in = f.len_in;
                    fresh = f.fresh;
                    stream = f.stream;
                    sized = f.sized;
                  },
                  (λ h. absurd cc),
                  o,
                )
          | inr (d, good) ↦
              rw (e, good)
                (
                  (
                    record {
                      buf = f.buf;
                      has_buf = f.has_buf;
                      room = f.room;
                      two = f.two;
                      len_in = f.len_in;
                      fresh = λ h. refl;
                      stream =
                          f.stream
                          ∙ ap
                              (λ g.
                                wire s.frames
                                ++ (take s.conn.len_got s.conn.len_bytes ++ take g f.buf))
                              none_yet;
                      sized = f.sized;
                    },
                    (λ two. (b0, b1, e, good, omega arith)),
                    o,
                  ),
                  ground arith,
                )
        ]

    -- The state with another kernel, and with another reason for an end.
    moved : (s : Input K D) (k : K) → Framed s → Framed (record s { kernel = k })
    moved s k f = record {
      buf = f.buf;
      has_buf = f.has_buf;
      room = f.room;
      two = f.two;
      len_in = f.len_in;
      fresh = f.fresh;
      stream = f.stream;
      sized = f.sized;
    }

    failed-Done :
        (s : Input K D) (n : ℕ) (k : K) (kind : CloseKind)
        → Framed s
        → Ok s.frames s.routed
        → Done n (some (failed str route now kind (record s { kernel = k })))
    failed-Done s n k kind f o = (
      record {
        buf = f.buf;
        has_buf = f.has_buf;
        room = f.room;
        two = f.two;
        len_in = f.len_in;
        fresh = f.fresh;
        stream = f.stream;
        sized = f.sized;
      },
      (λ h. absurd cc),
      o,
    )

    pub got_len-Done :
        (s : Input K D) (r : RecvResult) (k : K)
        → Good s
        → (short : s.conn.len_got < 2)
        → ((b : ℕ) (bs : List ℕ)
            → r ≡ RecvResult.got b bs
            → (length bs < 2 - s.conn.len_got) × (str.left k < str.left s.kernel))
        → Done (rounds s) (got_len str route now s r k)
    unfolding got_len
    got_len-Done s RecvResult.eof k (f, g, o) short facts =
        failed-Done s (rounds s) k CloseKind.close_peer f o
    got_len-Done s RecvResult.recv_failed k (f, g, o) short facts =
        failed-Done s (rounds s) k CloseKind.close_io f o
    got_len-Done s RecvResult.recv_again k (f, g, o) short facts = (moved s k f, (λ _. g), o)
    got_len-Done s (RecvResult.got b bs) k (f, g, o) short facts =
        let (room, fewer) = facts b bs refl in
        let n = s.conn.len_got + suc (length bs) in
        let (bytes, w, l, t) =
          write_take s.conn.len_bytes s.conn.len_got (b ∷ bs) n refl (omega (arith, f.two)) in
        let s1 : Input K D = record s {
          kernel = k;
          conn = record s.conn { len_bytes = bytes; len_got = n };
          received = s.received ++ b ∷ bs;
        } in
        let none_yet = f.fresh short in
        let f1 : Framed s1 = record {
          buf = f.buf;
          has_buf = f.has_buf;
          room = f.room;
          two = l ∙ f.two;
          len_in = omega arith;
          fresh = λ _. none_yet;
          stream =
              more_length s.received (wire s.frames) (take s.conn.len_got s.conn.len_bytes) (b ∷ bs)
                (take n bytes) f.buf s.conn.frame_got f.stream none_yet t;
          sized = f.sized;
        } in
        rw w (elim (Bool-cases (ltb n 2)) [
          | inl still ↦ rw still ((f1, (λ h. absurd (ground arith)), o), ground arith)
          | inr full ↦
              rw full (begin_body-Done s1 (rounds s) f1 o (ground arith) none_yet (ground arith))
        ])
      where
        more_length :
            (received w l bs l' buf : List ℕ) (g : ℕ)
            → received ≡ w ++ (l ++ take g buf)
            → g ≡ 0
            → l' ≡ l ++ bs
            → received ++ bs ≡ w ++ (l' ++ take g buf)
        more_length received w l bs l' buf g e z t =
            rw (e, z, t)
              (append_assoc w (l ++ []) bs
                ∙ ap (λ x. w ++ x) (ap (λ x. x ++ bs) (append-nil l) ∙ sym (append-nil (l ++ bs))))

    pub got_body-Done :
        (s : Input K D) (r : RecvResult) (k : K)
        → Good s
        → (full : s.conn.len_got ≡ 2)
        → ((b : ℕ) (bs : List ℕ)
            → r ≡ RecvResult.got b bs
            → (length bs < s.conn.frame_expect - s.conn.frame_got)
              × (str.left k < str.left s.kernel))
        → Done (rounds s) (got_body str route now s r k)
    unfolding got_body
    got_body-Done s RecvResult.eof k (f, g, o) full facts =
        failed-Done s (rounds s) k CloseKind.close_peer f o
    got_body-Done s RecvResult.recv_failed k (f, g, o) full facts =
        failed-Done s (rounds s) k CloseKind.close_io f o
    got_body-Done s RecvResult.recv_again k (f, g, o) full facts = (moved s k f, (λ _. g), o)
    got_body-Done s (RecvResult.got b bs) k (f, g, o) full facts =
        let (room, fewer) = facts b bs refl in
        let (b0, b1, e, len, held) = g full in
        let n = s.conn.frame_got + suc (length bs) in
        let (low, high) = udp_tcp_frame_len_range b0 b1 buffer_size s.conn.frame_expect len in
        let (buf, w, l, t) =
          write_take f.buf s.conn.frame_got (b ∷ bs) n refl (omega (arith, f.room)) in
        rw (f.has_buf, w)
          (
            (
              record {
                buf = buf;
                has_buf = refl;
                room = omega (arith, f.room);
                two = f.two;
                len_in = f.len_in;
                fresh = λ h. absurd (omega arith);
                stream =
                    more_body s.received (wire s.frames) (take s.conn.len_got s.conn.len_bytes)
                      (take s.conn.frame_got f.buf) (b ∷ bs) (take n buf) f.stream t;
                sized = f.sized;
              },
              (λ _. (b0, b1, e, len, omega arith)),
              o,
            ),
            ground arith,
          )
      where
        more_body :
            (received w l x bs x' : List ℕ)
            → received ≡ w ++ (l ++ x)
            → x' ≡ x ++ bs
            → received ++ bs ≡ w ++ (l ++ x')
        more_body received w l x bs x' e t =
            rw (e, t) (append_assoc w (l ++ x) bs ∙ ap (λ y. w ++ y) (append_assoc l x bs))
