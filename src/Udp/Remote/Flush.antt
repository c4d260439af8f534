-- ===== src/Udp/Remote/Flush.antt =====
-- One datagram for the TCP connection: what the kernel takes and what waits are its frame.
use mathlib.Core.List.{append_assoc}
use g_proxy_pro.Base.{
  ℕ, ◌+◌, ◌/◌, ◌%◌, ◌^◌, ◌≡◌, inl, inr, refl, sym, ap, ◌∙◌, arith, Bool, true, false, Option, none,
  some, List, [], ◌∷◌, ◌++◌, ◌==◌, if◌then◌else◌, ◌>>=◌, length, take, drop, Bool-cases,
}
use g_proxy_pro.Proto.Encode.{udp_header}
use g_proxy_pro.Tcp.{Sys, TryResult, send_loop}
use g_proxy_pro.Tcp.Relay.Sending.{loop_lem, drop_after}
use g_proxy_pro.Udp.{UdpConn}
use g_proxy_pro.Udp.Session.{flush_out, after_send}
use g_proxy_pro.Udp.Frames.{buffer_size}
use g_proxy_pro.Udp.Remote.{
  Arrival, received, put_frame, Remote, counted, flush_to, start_frame, to_client,
}
use g_proxy_pro.Udp.Remote.Source.{source_of, Sized, named}
use g_proxy_pro.Udp.Remote.Frame.{frame, put_frame_lem}

-- The frame of a datagram, as RFC 1928 and the two bytes of size in front say.
abbrev pub framed_bytes : Bool × List ℕ → List ℕ → List ℕ → List ℕ
framed_bytes (v6, addr) port bytes =
    let body = udp_header v6 addr port ++ bytes in
    (length body / 2 ^ 8 % 2 ^ 8 ∷ length body % 2 ^ 8 ∷ []) ++ body

-- An empty datagram is passed over.
abbrev pub frame_of : Arrival → List ℕ
frame_of d =
    if length (received 24 d) == 0
    then []
    else framed_bytes (source_of d.src.is_v6 d.src.addr) d.src.port (received 24 d)

abbrev pub frames : List Arrival → List ℕ
frames [] = []
frames (d ∷ ds) = frame_of d ++ frames ds

abbrev pub size_of : List Arrival → ℕ
size_of [] = 0
size_of (d ∷ ds) = length (received 24 d) + size_of ds

abbrev pub AllSized : List Arrival → Type 0
AllSized [] = Unit {0}
AllSized (d ∷ ds) = Sized d.src × AllSized ds

-- What is in `out_buf` and still has to go out.
abbrev pub waiting : Option (List ℕ) → ℕ → ℕ → List ℕ
waiting none off len = []
waiting (some out) off len = drop off (take len out)

abbrev pub pending : UdpConn → List ℕ
pending u = waiting u.out_buf u.out_off u.out_len

pub record Room (u : UdpConn) : Type 0 where
  pub out : List ℕ
  pub there : u.out_buf ≡ some out
  pub full : length out ≡ buffer_size

module _ {K : Type 0} (sys : Sys K) where
  after_send_lem :
      (u : UdpConn) (out : List ℕ)
      → u.out_buf ≡ some out
      → (stop : TryResult) (taken rest : List ℕ)
      → drop u.out_off (take u.out_len out) ≡ taken ++ rest
      → (stop ≡ TryResult.drained → rest ≡ [])
      → let u' = (after_send sys u stop (length taken)).1 in
        (taken ++ pending u' ≡ drop u.out_off (take u.out_len out)) × (u'.out_buf ≡ some out)
  unfolding after_send
  after_send_lem u out e TryResult.drained taken rest split done =
      (rw e (sym (split ∙ ap (λ r. taken ++ r) (done refl))), e)
  after_send_lem u out e TryResult.pending taken rest split done = (
    rw e (
        ap (λ r. taken ++ r) (drop_after u.out_off (take u.out_len out) taken rest split)
        ∙ sym split),
    e,
  )
  after_send_lem u out e TryResult.broken taken rest split done = (
    rw e (
        ap (λ r. taken ++ r) (drop_after u.out_off (take u.out_len out) taken rest split)
        ∙ sym split),
    e,
  )

  -- What the kernel has taken and what waits are the same bytes in the same order after a flush.
  record Flushed (out : List ℕ) (s : Remote K) (r : Bool × Remote K) : Type 0 where
    pub stream : r.1.sent ++ pending r.1.conn ≡ s.sent ++ pending s.conn
    pub there : r.1.conn.out_buf ≡ some out
    pub rx : r.1.rx_bytes ≡ s.rx_bytes

  flush_lem :
      (fd : Option ℕ) (out : List ℕ) (s : Remote K)
      → s.conn.out_buf ≡ some out
      → Flushed out s (flush_to sys fd out s)
  unfolding flush_to flush_out
  flush_lem none out s e = record { stream = refl; there = e; rx = refl }
  flush_lem (some fd) out s e =
      let r = send_loop sys s.kernel fd (drop s.conn.out_off (take s.conn.out_len out)) 0 in
      let (rest, split, done) =
        loop_lem sys s.kernel fd (drop s.conn.out_off (take s.conn.out_len out)) 0 in
      let (moved, kept) = after_send_lem s.conn out e r.stop r.taken rest split done in
      record {
        stream =
            append_assoc s.sent r.taken _
            ∙ ap (λ l. s.sent ++ l)
                (moved ∙ sym (ap (λ b. waiting b s.conn.out_off s.conn.out_len) e));
        there = kept;
        rx = refl;
      }

  -- One datagram, when nothing waits.
  pub record Passed (d : Arrival) (s : Remote K) : Type 0 where
    pub ok : Bool
    pub next : Remote K
    pub run : to_client sys d s ≡ some (ok, next)
    pub stream : next.sent ++ pending next.conn ≡ s.sent ++ frame_of d
    pub room : Room next.conn
    pub rx : next.rx_bytes ≡ s.rx_bytes + length (received 24 d)

  -- The datagram is put in a frame, and what the kernel does not take of it waits.
  pub to_client_lem :
      (d : Arrival) (s : Remote K) → Sized d.src → Room s.conn → pending s.conn ≡ [] → Passed d s
  unfolding to_client start_frame
  to_client_lem d s h room idle = elim (Bool-cases (length (received 24 d) == 0)) [
    | inl empty ↦
        let e : length (received 24 d) ≡ 0 = ground arith in
        record {
          ok = true;
          next = s;
          run = rw empty refl;
          stream = rw empty (ap (λ l. s.sent ++ l) idle);
          room = room;
          rx = omega arith;
        }
    | inr some_bytes ↦
        let n = named d.src h in
        let (r, built, full, front) = put_frame_lem d h room.out room.full in
        let len = length (frame d.src n (received 24 d)) in
        let s1 : Remote K = record (counted (received 24 d) s) {
          conn = record s.conn { out_buf = some r; out_len = len; out_off = 0 };
        } in
        let f = flush_lem s.conn.client_fd r s1 refl in
        record {
          ok = (flush_to sys s.conn.client_fd r s1).0;
          next = (flush_to sys s.conn.client_fd r s1).1;
          run = run r len some_bytes room.there built;
          stream = f.stream ∙ ap (λ l. s.sent ++ l) (front ∙ sym (rw some_bytes refl));
          room = record { out = r; there = f.there; full = full };
          rx = f.rx;
        }
  ]
    where
      run :
          (r : List ℕ) (len : ℕ)
          → (length (received 24 d) == 0) ≡ false
          → s.conn.out_buf ≡ some room.out
          → put_frame room.out d ≡ some (r, len)
          → to_client sys d s ≡ start_frame sys d s (r, len)
      run r len e1 e2 e3 = rw e1 (
          ap (λ m. m >>= λ out. put_frame out d >>= λ r. start_frame sys d s r) e2
          ∙ ap (λ m. m >>= λ r. start_frame sys d s r) e3)
