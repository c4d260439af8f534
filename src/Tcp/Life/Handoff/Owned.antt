-- ===== src/Tcp/Life/Handoff/Owned.antt =====
-- What `handoff_to_worker` leaves: a connection of the worker, or a pair of descriptors given up.
use g_proxy_pro.Base.{◌≢◌, get_elem?-set_ne}
use g_proxy_pro.Base.{
  ℕ, ◌+◌, ◌-◌, ◌%◌, ◌^◌, ◌≡◌, ◌⊎◌, inl, inr, refl, sym, ap, ◌∙◌, arith, Bool, true, false, ◌&&◌,
  Option, some, ◌∷◌, ◌==◌, if◌then◌else◌, Bool-cases, get_elem?, get_elem?-set_self, get_elem?-lt,
}
use native.Mathlib.Decide.{ℕ_discrete}
use g_proxy_pro.Slots.{Table}
use g_proxy_pro.Slots.Stale.{written-IsValid, counted-IsValid}
use g_proxy_pro.Slots.Inv.{IsValid, Acquired, acquire-Acquired, Released}
use g_proxy_pro.Event.Conn.{event_id}
use g_proxy_pro.Tcp.{FullConn, tcp_slotted, wiped}
use g_proxy_pro.Tcp.Life.{close_client, close_target, Shared, remove}
use g_proxy_pro.Tcp.Life.Worker.{unlink}
use g_proxy_pro.Tcp.Life.Handoff.{
  Engine, Circumstances, put, drop_ref, refuse, given_up, events, target_word, register, filled,
  started, set_up, with_slot, handoff,
}
use g_proxy_pro.Tcp.Life.Handoff.Undo.{back, over, drop_ref_lem, InUse, remove_idle}
use g_proxy_pro.Tcp.Life.Handoff.Outcome.{Failed, Undone, Owned}

module _ (client target : ℕ) where
  module _ (n : ℕ) (g : Engine) (slot : ℕ) (t1 : Table FullConn)
      (a : Acquired n g.table slot t1) where
    -- A slot in use is not the one that was idle.
    apart : (i : ℕ) → get_elem? g.table.slot_state i ≡ some true → slot ≢ i
    apart i used same =
        absurd (cc (used, a.was_idle, ap (λ j. get_elem? g.table.slot_state j) same))

    undo :
        (w : Circumstances) (gen : ℕ) (c : FullConn) (s : Shared)
        → c.slot ≡ slot
        → c.refs ≡ 1
        → c.finalized ≡ false
        → (c.has_c2t_buf ≡ w.c2t_given) × (c.has_t2c_buf ≡ w.t2c_given)
        → Failed client target w (event_id gen slot)
        → (c.client_fd ≡ some client) × (c.target_fd ≡ some target)
        → remove slot s.list ≡ g.shared.list
        → s.conn_count ≡ g.shared.conn_count
        → s.effects ≡ g.shared.effects
        → (g' : Engine) × (drop_ref c (record g { table = t1; shared = s }) ≡ some g')
          × Undone client target w n g g'
    unfolding close_client close_target
    undo w gen c s es one first (b1, b2) why (ec, et) el en ee =
        let used : get_elem? t1.slot_state c.slot ≡ some true =
          ap (λ i. get_elem? t1.slot_state i) es ∙ a.now_used in
        let (t, e, r) =
          drop_ref_lem n c (record g { table = t1; shared = s }) a.valid used one first in
        (
          record g { table = t; shared = back c s },
          e,
          record {
            valid = r.valid;
            slots = λ i. same_state t r es i;
            list = ap (λ i. remove i s.list) es ∙ el;
            conn_count = ap (λ k. k - 1) en;
            untouched = λ i in_use.
                ap (λ l. get_elem? l i) r.same_slots
                ∙ get_elem?-set_ne t1.slots c.slot i (over c) (λ q. apart i in_use (sym es ∙ q))
                ∙ a.other_slots i (apart i in_use);
            closed = inr (slot, gen, a.was_idle, why, rw (ee, ec, et, b1, b2) refl);
            added = refl;
            ghost = refl;
          },
        )
      where
        same_state :
            (t : Table FullConn)
            → Released n (put (over c) t1) c.slot t
            → c.slot ≡ slot
            → (i : ℕ) → get_elem? t.slot_state i ≡ get_elem? g.table.slot_state i
        same_state t r es i = elim (ℕ_discrete slot i) [
          | yes same ↦
              ap (λ j. get_elem? t.slot_state j) (sym (es ∙ same))
              ∙ r.now_idle
              ∙ sym (ap (λ j. get_elem? g.table.slot_state j) (sym same) ∙ a.was_idle)
          | no other ↦ r.other_states i (λ q. other (sym es ∙ q)) ∙ a.other_states i other
        ]

    abbrev Kept : Circumstances → Option (Bool × Engine) → Type 0
    Kept w r =
        ((g' : Engine) × (r ≡ some (true, g')) × Owned client target w n g g')
        ⊎ ((g' : Engine) × (r ≡ some (false, g')) × Undone client target w n g g')

    undone :
        (w : Circumstances) (r : Option Engine)
        → ((g' : Engine) × (r ≡ some g') × Undone client target w n g g')
        → Kept w (given_up r)
    undone w r (g', e, u) = inr (g', rw e refl, u)

    module _ (w : Circumstances) (widx gen : ℕ)
        (at : get_elem? t1.slots slot ≡ some (wiped gen slot))
        (listed : InUse g.table g.shared.list) where
      abbrev g1 : Engine
      g1 = record g { table = t1 }

      abbrev new : FullConn
      new = filled w widx client target slot (wiped gen slot)

      not_listed : remove slot g.shared.list ≡ g.shared.list
      not_listed = remove_idle g.table slot g.shared.list listed a.was_idle

      off_list : remove slot (remove slot (slot ∷ g.shared.list)) ≡ g.shared.list
      unfolding remove
      off_list =
          let hit : (slot == slot) ≡ true = ground arith in
          rw hit (ap (λ l. remove slot l) not_listed ∙ not_listed)

      register_lem :
          (w.c2t_given && w.t2c_given) ≡ true
          → w.stopping ≡ false
          → Kept w (register w widx client target (started w widx client target new) g1)
      unfolding register unlink
      register_lem given runs =
          let c = started w widx client target new in
          let ev = events w widx client target in
          let both =
            w.add client ev c.ep_u64 && w.add target ev (target_word w widx client target c) in
          elim (Bool-cases both) [
            | inl ok ↦ rw ok (
                inl (
                  _,
                  refl,
                  record {
                    slot = slot;
                    conn = record c { registered = true };
                    valid = written-IsValid slot (record c { registered = true }) a.valid;
                    was_idle = a.was_idle;
                    now_used = a.now_used;
                    others = a.other_states;
                    untouched = λ i in_use.
                        get_elem?-set_ne t1.slots slot i _ (apart i in_use)
                        ∙ a.other_slots i (apart i in_use);
                    buffers = given;
                    runs = runs;
                    accepts = ok;
                    at = get_elem?-set_self t1.slots slot _ (get_elem?-lt t1.slots slot at);
                    refs = refl;
                    ready = refl;
                    not_closed = refl;
                    own_slot = refl;
                    fds = (refl, refl);
                    word = refl;
                    list = refl;
                    conn_count = refl;
                    effects = refl;
                    added = refl;
                    ghost = refl;
                  },
                ))
            | inr failed ↦ rw failed (
                undone w _ (
                  undo w gen (record c { closed = true })
                    (record g.shared { list = remove slot (slot ∷ g.shared.list) }) refl refl refl
                    (refl, refl) (inr (given, inr (runs, failed))) (refl, refl) off_list refl refl))
          ]

      -- Where the two buffers are there, the worker's `stopping` decides.
      locked :
          (b : Bool)
          → w.stopping ≡ b
          → (w.c2t_given && w.t2c_given) ≡ true
          → Kept w (
              if b
              then given_up (drop_ref (started w widx client target new) g1)
              else register w widx client target (started w widx client target new) g1)
      locked true stops given = undone w _ (
          undo w gen (started w widx client target new) g.shared refl refl refl (refl, refl)
            (inr (given, inl stops)) (refl, refl) not_listed refl refl)
      locked false runs given = register_lem given runs

      set_up_lem : Kept w (set_up w widx client target slot (wiped gen slot) g1)
      unfolding set_up
      set_up_lem = elim (Bool-cases (w.c2t_given && w.t2c_given)) [
        | inr poor ↦ rw poor (
            undone w _ (
              undo w gen new g.shared refl refl refl (refl, refl) (inl poor) (refl, refl) not_listed
                refl refl))
        | inl given ↦ rw given (locked w.stopping refl given)
      ]

  -- Let the slot table be in order and every slot of the worker's list in use. Whatever `malloc` and
  -- `epoll_ctl` answer, and whether the worker is stopping or not, a hand-over accesses no array outside
  -- its bounds, leaves the slots in use as they were, and ends in one of two ways. If the connection is
  -- the worker's, there were both buffers, the worker was not stopping, and both registrations
  -- succeeded: it has a slot that was free, one reference, both descriptors are registered under the
  -- words of that slot and its generation, and it is in the list. Otherwise there was no free slot, or a
  -- buffer was missing, or the worker was stopping, or a registration failed, and nothing is left of it:
  -- both descriptors have been closed, the Java side of the target's before the descriptor, the buffers
  -- that there were are freed, the same slots are in use and in the list as before, one connection fewer
  -- is counted, and nothing is registered.
  pub handoff_lem :
      (w : Circumstances) (widx n : ℕ) (g : Engine)
      → IsValid n g.table
      → InUse g.table g.shared.list
      → ((g' : Engine) × (handoff w widx client target g ≡ some (true, g'))
          × Owned client target w n g g')
        ⊎ ((g' : Engine) × (handoff w widx client target g ≡ some (false, g'))
            × Undone client target w n g g')
  unfolding handoff with_slot refuse
  handoff_lem w widx n g v listed = elim (acquire-Acquired v) [
    | inl (full, e) ↦ inr (
      refuse client target
          (record g { table = record g.table { exhausted = g.table.exhausted + 1 } }),
      rw e refl,
      record {
        valid = counted-IsValid _ v;
        slots = λ i. refl;
        untouched = λ i in_use. refl;
        list = refl;
        conn_count = refl;
        closed = inl (full, refl);
        added = refl;
        ghost = refl;
      },
    )
    | inr (room, (slot, t1, e, a)) ↦
        rw (e, a.at_after)
          (set_up_lem n g slot t1 a w widx ((tcp_slotted.gen_of a.before + 1) % 2 ^ 32) a.at_after
            listed)
  ]
