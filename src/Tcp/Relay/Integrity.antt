-- ===== src/Tcp/Relay/Integrity.antt =====
-- No byte of a relayed connection is lost, doubled or put out of order.
use mathlib.Core.List.{append-nil, append_assoc}
use g_proxy_pro.Base.{
  false, if◌then◌else◌, ◌&&◌, not, Bool, ℕ, ◌+◌, ◌≡◌, refl, sym, ap, ◌∙◌, arith, true, List, [],
  ◌∷◌, ◌++◌, length, length-append, drop, Bool-cases, inl, inr, ltb, ◌==◌,
}
use g_proxy_pro.Tcp.{RecvResult, Sys, try_send}
use g_proxy_pro.Tcp.Relay.{
  grace_sec, grace_expired, is_open, peek, note_target_eof, transfer, read_target, read_client,
  handle_event, check_end, State, to_client, to_target, flush_client, flush_target, from_client,
  from_target,
}
use g_proxy_pro.Tcp.Relay.Sending.{try_send_lem, drop_nil}

-- What came from one side is what went to the other and, behind it, what is still in the buffer; and
-- the counters, `tx0` and `rx0` before, have grown by what was sent to and received from the target.
pub record Intact {K : Type 0} (tx0 rx0 : ℕ) (s : State K) : Type 0 where
  pub upstream : s.flow.from_client ≡ s.flow.to_target ++ drop s.conn.c2t_off s.conn.c2t
  pub downstream : s.flow.from_target ≡ s.flow.to_client ++ drop s.conn.t2c_off s.conn.t2c
  pub sent_up : s.tx ≡ tx0 + length s.flow.to_target
  pub got_down : s.rx ≡ rx0 + length s.flow.from_target

empty : (xs : List ℕ) → (length xs == 0) ≡ true → xs ≡ []
empty [] e = refl
empty (x ∷ xs) e = absurd (ground arith)

either-Intact :
    {K : Type 0} {tx0 rx0 : ℕ} (test : Bool) (x y : State K)
    → Intact tx0 rx0 x
    → Intact tx0 rx0 y
    → Intact tx0 rx0 (if test then x else y)
either-Intact true x y vx vy = vx
either-Intact false x y vx vy = vy

module _ {K : Type 0} (sys : Sys K) (tx0 rx0 : ℕ) where
  to_client-Intact : (s : State K) → Intact tx0 rx0 s → Intact tx0 rx0 (to_client sys s)
  unfolding to_client
  to_client-Intact s v =
      let (e, _) = try_send_lem sys s.kernel s.conn.client_fd s.conn.t2c s.conn.t2c_off in
      record {
        upstream = v.upstream;
        downstream =
            v.downstream
            ∙ (ap (λ l. s.flow.to_client ++ l) e ∙ sym (append_assoc s.flow.to_client _ _));
        sent_up = v.sent_up;
        got_down = v.got_down;
      }

  to_target-Intact : (s : State K) → Intact tx0 rx0 s → Intact tx0 rx0 (to_target sys s)
  unfolding to_target
  to_target-Intact s v =
      let t = try_send sys s.kernel s.conn.target_fd s.conn.c2t s.conn.c2t_off in
      let (e, _) = try_send_lem sys s.kernel s.conn.target_fd s.conn.c2t s.conn.c2t_off in
      record {
        upstream =
            v.upstream
            ∙ (ap (λ l. s.flow.to_target ++ l) e ∙ sym (append_assoc s.flow.to_target _ _));
        downstream = v.downstream;
        sent_up = omega (arith, v.sent_up, length-append s.flow.to_target t.taken);
        got_down = v.got_down;
      }

  flush_client-Intact : (s : State K) → Intact tx0 rx0 s → Intact tx0 rx0 (flush_client sys s)
  unfolding flush_client
  flush_client-Intact s v = elim (Bool-cases (ltb 0 (length s.conn.t2c))) [
    | inl some_left ↦ rw (some_left, flush_client) (to_client-Intact s v)
    | inr none_left ↦ rw (none_left, flush_client) v
  ]

  flush_target-Intact : (s : State K) → Intact tx0 rx0 s → Intact tx0 rx0 (flush_target sys s)
  unfolding flush_target
  flush_target-Intact s v = elim (Bool-cases (ltb 0 (length s.conn.c2t))) [
    | inl some_left ↦ rw (some_left, flush_target) (to_target-Intact s v)
    | inr none_left ↦ rw (none_left, flush_target) v
  ]

  -- With nothing buffered, all that came from the client has gone to the target.
  from_client-Intact :
      (now : ℕ) (s : State K) (r : RecvResult) (k : K)
      → s.conn.c2t ≡ []
      → Intact tx0 rx0 s
      → Intact tx0 rx0 (from_client sys now s r k)
  unfolding from_client
  from_client-Intact now s (RecvResult.got b bs) k none_left v = to_target-Intact _ (record {
    upstream =
        ap (λ l. l ++ b ∷ bs)
          (v.upstream ∙ rw (none_left, drop_nil s.conn.c2t_off) (append-nil s.flow.to_target));
    downstream = v.downstream;
    sent_up = v.sent_up;
    got_down = v.got_down;
  })
  from_client-Intact now s RecvResult.eof k none_left v = record {
    upstream = v.upstream;
    downstream = v.downstream;
    sent_up = v.sent_up;
    got_down = v.got_down;
  }
  from_client-Intact now s RecvResult.recv_again k none_left v = record {
    upstream = v.upstream;
    downstream = v.downstream;
    sent_up = v.sent_up;
    got_down = v.got_down;
  }
  from_client-Intact now s RecvResult.recv_failed k none_left v = record {
    upstream = v.upstream;
    downstream = v.downstream;
    sent_up = v.sent_up;
    got_down = v.got_down;
  }

  from_target-Intact :
      (s : State K) (r : RecvResult) (k : K)
      → s.conn.t2c ≡ []
      → Intact tx0 rx0 s
      → Intact tx0 rx0 (from_target sys s r k)
  unfolding from_target
  from_target-Intact s (RecvResult.got b bs) k none_left v = to_client-Intact _ (record {
    upstream = v.upstream;
    downstream =
        ap (λ l. l ++ b ∷ bs)
          (v.downstream ∙ rw (none_left, drop_nil s.conn.t2c_off) (append-nil s.flow.to_client));
    sent_up = v.sent_up;
    got_down = omega (arith, v.got_down, length-append s.flow.from_target (b ∷ bs));
  })
  from_target-Intact s RecvResult.eof k none_left v = record {
    upstream = v.upstream;
    downstream = v.downstream;
    sent_up = v.sent_up;
    got_down = v.got_down;
  }
  from_target-Intact s RecvResult.recv_again k none_left v = record {
    upstream = v.upstream;
    downstream = v.downstream;
    sent_up = v.sent_up;
    got_down = v.got_down;
  }
  from_target-Intact s RecvResult.recv_failed k none_left v = record {
    upstream = v.upstream;
    downstream = v.downstream;
    sent_up = v.sent_up;
    got_down = v.got_down;
  }

  read_client-Intact :
      (now : ℕ) (s : State K) → Intact tx0 rx0 s → Intact tx0 rx0 (read_client sys now s)
  unfolding read_client
  read_client-Intact now s v =
      elim (Bool-cases (not s.fatal && ((length s.conn.c2t == 0) && not s.conn.client_eof))) [
        | inl may ↦
            let none_left : s.conn.c2t ≡ [] = empty s.conn.c2t (ground (arith, may)) in
            rw (may, read_client) (from_client-Intact now s _ _ none_left v)
        | inr may_not ↦ rw (may_not, read_client) v
      ]

  read_target-Intact : (s : State K) → Intact tx0 rx0 s → Intact tx0 rx0 (read_target sys s)
  unfolding read_target
  read_target-Intact s v = elim (Bool-cases (not s.fatal && (length s.conn.t2c == 0))) [
    | inl may ↦
        let none_left : s.conn.t2c ≡ [] = empty s.conn.t2c (ground (arith, may)) in
        rw (may, read_target) (from_target-Intact s _ _ none_left v)
    | inr may_not ↦ rw (may_not, read_target) v
  ]

  transfer-Intact : (now : ℕ) (s : State K) → Intact tx0 rx0 s → Intact tx0 rx0 (transfer sys now s)
  unfolding transfer
  transfer-Intact now s v =
      either-Intact (not s.fatal) _ s
        (read_target-Intact _
          (read_client-Intact now _ (flush_target-Intact _ (flush_client-Intact s v))))
        v

  note_target_eof-Intact :
      (now : ℕ) (is_target rdhup : Bool) (s : State K)
      → Intact tx0 rx0 s
      → Intact tx0 rx0 (note_target_eof sys now is_target rdhup s)
  unfolding note_target_eof
  note_target_eof-Intact now is_target rdhup s v =
      let noted : State K = record s { conn = record s.conn { target_eof_since = now } } in
      either-Intact
        (not s.fatal
          && (is_target
              && ((s.conn.target_eof_since == 0) && (rdhup && is_open sys s.conn.target_fd))))
        noted s
        (record {
          upstream = v.upstream;
          downstream = v.downstream;
          sent_up = v.sent_up;
          got_down = v.got_down;
        })
        v

  -- The streams are untouched by what decides about the end.
  same_streams :
      (s : State K) (k : K) (fatal : Bool)
      → Intact tx0 rx0 s
      → Intact tx0 rx0 (record s { kernel = k; fatal = fatal })
  same_streams s k fatal v = record {
    upstream = v.upstream;
    downstream = v.downstream;
    sent_up = v.sent_up;
    got_down = v.got_down;
  }

  check_end-Intact :
      (now : ℕ) (s : State K) → Intact tx0 rx0 s → Intact tx0 rx0 (check_end sys now s)
  unfolding check_end
  check_end-Intact now s v =
      let (over, k) = peek sys s.kernel s.conn.target_fd in
      let over_now : State K = record s { fatal = true } in
      let gone : State K = record s { kernel = k; fatal = true } in
      let here : State K = record s { kernel = k } in
      let due = grace_expired now s.conn.eof_since grace_sec in
      either-Intact (not s.fatal && ((length s.conn.c2t == 0) && (length s.conn.t2c == 0)))
        (if s.conn.client_eof then (if due then over_now else s) else (if over then gone else here))
        s
        (either-Intact s.conn.client_eof (if due then over_now else s) (if over then gone else here)
          (either-Intact due over_now s (same_streams s s.kernel true v) v)
          (either-Intact over gone here (same_streams s k true v) (same_streams s k s.fatal v)))
        v

  -- Whatever the event is, however the kernel answers, and whether the connection survives it or not,
  -- an event preserves this: what came from the client is what went to the target and, behind it, what is buffered for it, in
  -- order; the same holds the other way; and the upload and download counters have grown by exactly what
  -- was sent to and received from the target.
  pub handle_event-Intact :
      (now : ℕ) (is_target error rdhup : Bool) (s : State K)
      → Intact tx0 rx0 s
      → Intact tx0 rx0 (handle_event sys now is_target error rdhup s)
  unfolding handle_event
  handle_event-Intact now is_target error rdhup s v = check_end-Intact now _ (
      note_target_eof-Intact now is_target rdhup _ (
        transfer-Intact now _ (record {
          upstream = v.upstream;
          downstream = v.downstream;
          sent_up = v.sent_up;
          got_down = v.got_down;
        })))
