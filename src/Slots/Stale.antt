-- ===== src/Slots/Stale.antt =====
-- Generations: an event of an earlier owner of a slot is told apart from those of the present one.
use g_proxy_pro.Base.{
  ℕ, suc, ◌+◌, ◌%◌, ◌^◌, ◌<◌, ◌≡◌, ◌≢◌, inl, inr, sym, ap, subst, ◌∙◌, arith, Bool, true, some,
  none, get_elem?, set, length-set, get_elem?-set_self, get_elem?-set_ne, get_elem?-lt,
}
use native.Mathlib.Decide.{ℕ_discrete}
use g_proxy_pro.Slots.{Slotted, Table, acquire, release}
use g_proxy_pro.Slots.Inv.{IsValid, Acquired, Released, acquire-Acquired, release-Released}
use g_proxy_pro.Slots.Trace.{Trace, here, again, other, failed, gave, wrote}
use g_proxy_pro.Event.Conn
use g_proxy_pro.Event.Udp
use g_proxy_pro.Event.Guard.{conn_check_slot_iff, udp_check_slot_iff}

module _ {ℓ} {C : Type ℓ} ⦃ops : Slotted C⦄ {n : ℕ} {u : Table C} (v : IsValid n u) where
  -- `acquire` has one result.
  Acquired-run : (j : ℕ) (w : Table C) → acquire u ≡ some (some j, w) → Acquired n u j w
  Acquired-run j w e = elim (acquire-Acquired v) [
    | inl (_, f) ↦ cc
    | inr (_, (j', w', f, a)) ↦
        let ej : j' ≡ j = cc in
        let ew : w' ≡ w = cc in
        subst (λ x. Acquired n u j x) ew (subst (λ x. Acquired n u x w') ej a)
  ]

  exhausted-run :
      (w : Table C) → acquire u ≡ some (none, w) → w ≡ record u { exhausted = u.exhausted + 1 }
  exhausted-run w e = elim (acquire-Acquired v) [ inl (_, f) ↦ cc | inr (_, (j', w', f, a)) ↦ cc ]

  Released-run :
      (j : ℕ) (w : Table C)
      → get_elem? u.slot_state j ≡ some true
      → release u j ≡ some w
      → Released n u j w
  Released-run j w used e =
      let (w', f, r) = release-Released v j used in
      let ew : w' ≡ w = cc in subst (λ x. Released n u j x) ew r

pub written-IsValid {ℓ} :
    {C : Type ℓ} {n : ℕ} {u : Table C} (j : ℕ) (c' : C)
    → IsValid n u
    → IsValid n (record u { slots = set u.slots j c' })
written-IsValid {u} j c' v = record {
  len_slots = length-set u.slots j c' ∙ v.len_slots;
  len_state = v.len_state;
  len_free = v.len_free;
  balance = v.balance;
  free_idle = v.free_idle;
  free_distinct = v.free_distinct;
}

pub counted-IsValid {ℓ} :
    {C : Type ℓ} {n : ℕ} {u : Table C} (e : ℕ)
    → IsValid n u
    → IsValid n (record u { exhausted = e })
counted-IsValid e v = record {
  len_slots = v.len_slots;
  len_state = v.len_state;
  len_free = v.len_free;
  balance = v.balance;
  free_idle = v.free_idle;
  free_distinct = v.free_distinct;
}

module _ {ℓ} {C : Type ℓ} ⦃ops : Slotted C⦄ (n idx : ℕ) where
  pub record Follows (k : ℕ) (t u : Table C) (c : C) : Type ℓ where
    pub valid : IsValid n u
    pub now : C
    pub at : get_elem? u.slots idx ≡ some now
    pub gen : ops.gen_of now ≡ (ops.gen_of c + k) % 2 ^ 32

  pub Trace-Follows :
      {k : ℕ} {t u : Table C} (c : C)
      → IsValid n t
      → get_elem? t.slots idx ≡ some c
      → ops.gen_of c < 2 ^ 32
      → Trace idx k t u
      → Follows k t u c
  Trace-Follows c v at small here = record { valid = v; now = c; at = at; gen = omega arith }
  Trace-Follows {k = suc k} c v at small (again w r e) =
      let f = Trace-Follows c v at small r in
      let a = Acquired-run f.valid idx w e in
      let same : a.before ≡ f.now = ground (arith, a.at_before, f.at) in
      record {
        valid = a.valid;
        now = ops.blank ((ops.gen_of a.before + 1) % 2 ^ 32) idx;
        at = a.at_after;
        gen = ops.gen_of-blank _ idx ∙ rw (same, f.gen) (omega arith);
      }
  Trace-Follows c v at small (other j w r ne e) =
      let f = Trace-Follows c v at small r in
      let a = Acquired-run f.valid j w e in
      record { valid = a.valid; now = f.now; at = a.other_slots idx ne ∙ f.at; gen = f.gen }
  Trace-Follows {k} {t} c v at small (failed w r e) =
      let f = Trace-Follows c v at small r in
      subst (λ x. Follows k t x c) (sym (exhausted-run f.valid w e))
        (record { valid = counted-IsValid _ f.valid; now = f.now; at = f.at; gen = f.gen })
  Trace-Follows c v at small (gave j w r used e) =
      let f = Trace-Follows c v at small r in
      let d = Released-run f.valid j w used e in
      record {
        valid = d.valid;
        now = f.now;
        at = ap (λ l. get_elem? l idx) d.same_slots ∙ f.at;
        gen = f.gen;
      }
  Trace-Follows {u} c v at small (wrote {u = u0} j d d' r here_d keep) =
      let f = Trace-Follows c v at small r in
      elim (ℕ_discrete j idx) [
        | yes same ↦
            let old : d ≡ f.now =
              (let e = subst (λ x. get_elem? u0.slots x ≡ some d) same here_d in cc) in
            record {
              valid = written-IsValid j d' f.valid;
              now = d';
              at =
                  subst (λ x. get_elem? (set u0.slots j d') x ≡ some d') same
                    (get_elem?-set_self u0.slots j d' (get_elem?-lt u0.slots j here_d));
              gen = keep ∙ (ap ops.gen_of old ∙ f.gen);
            }
        | no ne ↦ record {
          valid = written-IsValid j d' f.valid;
          now = f.now;
          at = get_elem?-set_ne u0.slots j idx d' ne ∙ f.at;
          gen = f.gen;
        }
      ]

  -- Let an event be registered at the generation that slot `idx` has in a table in order, and let the
  -- slot be handed out `k` times after that, with any other use of the table in between. Then neither
  -- engine processes the event as one of the slot's present owner, as long as `k` is positive and below
  -- 2^32; at 2^32 hand-outs the generation is the old one again.
  pub stale_not_processed :
      {k : ℕ} {t u : Table C} (c : C)
      → IsValid n t
      → get_elem? t.slots idx ≡ some c
      → ops.gen_of c < 2 ^ 32
      → Trace idx k t u
      → (now : C) × (get_elem? u.slots idx ≡ some now)
        × (0 < k
            → k < 2 ^ 32
            → (magic widx my_widx : ℕ) (state closed registered : Bool)
            → (Conn.check_slot
                  (ops.gen_of c)
                  (ops.gen_of now)
                  magic
                  state
                  widx
                  my_widx
                  closed
                  registered
                ≢ Conn.Disposition.process)
              × (Udp.check_slot (ops.gen_of c) (ops.gen_of now) magic state closed registered
                  ≢ Udp.Disposition.process))
        × (k ≡ 2 ^ 32 → ops.gen_of now ≡ ops.gen_of c)
  stale_not_processed c v at small r =
      let f = Trace-Follows c v at small r in
      (
        f.now,
        f.at,
        (λ pos lt magic widx my_widx state closed registered. (
          (λ p. absurd (
              omega (
                arith,
                f.gen,
                ((conn_check_slot_iff _ _ magic state widx my_widx closed registered).0 p).1,
              ))),
          λ p. absurd (
              omega (arith, f.gen, ((udp_check_slot_iff _ _ magic state closed registered).0 p).1)),
        )),
        λ full. omega (arith, f.gen),
      )
