-- ===== src/Slots/Inv.antt =====
-- Between two steps the stack holds each idle slot once, and only idle ones.
use g_proxy_pro.Base.{
  ℕ, zero, suc, ◌+◌, ◌-◌, ◌%◌, ◌^◌, ◌≤◌, ◌<◌, ◌≡◌, ◌≢◌, ◌⊎◌, inl, inr, refl, sym, ap, subst, ◌∙◌,
  arith, Bool, true, false, none, some, List, [], ◌∷◌, ◌==◌, length, get_elem?, set, length-set,
  get_elem?-set_self, get_elem?-set_ne, get_elem?-some, get_elem?-lt,
}
use native.Mathlib.Decide.{ℕ_discrete}
use g_proxy_pro.Slots.{Slotted, Table, acquire, release}

-- How many slots are in use.
abbrev pub actives : List Bool → ℕ
actives [] = 0
actives (true ∷ s) = suc (actives s)
actives (false ∷ s) = actives s

actives-set-true :
    (s : List Bool) (i : ℕ) → get_elem? s i ≡ some false → actives (set s i true) ≡ actives s + 1
actives-set-true [] i h = cc
actives-set-true (true ∷ s) zero h = cc
actives-set-true (false ∷ s) zero h = omega arith
actives-set-true (true ∷ s) (suc i) h = omega (arith, actives-set-true s i h)
actives-set-true (false ∷ s) (suc i) h = omega (arith, actives-set-true s i h)

actives-set-false :
    (s : List Bool) (i : ℕ) → get_elem? s i ≡ some true → actives (set s i false) + 1 ≡ actives s
actives-set-false [] i h = cc
actives-set-false (true ∷ s) zero h = omega arith
actives-set-false (false ∷ s) zero h = cc
actives-set-false (true ∷ s) (suc i) h = omega (arith, actives-set-false s i h)
actives-set-false (false ∷ s) (suc i) h = omega (arith, actives-set-false s i h)

actives-le : (s : List Bool) → actives s ≤ length s
actives-le [] = omega arith
actives-le (true ∷ s) = omega (arith, actives-le s)
actives-le (false ∷ s) = omega (arith, actives-le s)

pub record IsValid {ℓ} {C : Type ℓ} (n : ℕ) (t : Table C) : Type ℓ where
  pub len_slots : length t.slots ≡ n
  pub len_state : length t.slot_state ≡ n
  pub len_free : length t.free_slots ≡ n
  pub balance : t.free_slot_top + actives t.slot_state ≡ n
  pub free_idle :
      (i s : ℕ)
      → i < t.free_slot_top
      → get_elem? t.free_slots i ≡ some s
      → get_elem? t.slot_state s ≡ some false
  pub free_distinct :
      (i j s : ℕ)
      → i < t.free_slot_top
      → j < t.free_slot_top
      → get_elem? t.free_slots i ≡ some s
      → get_elem? t.free_slots j ≡ some s
      → i ≡ j

module _ {ℓ} {C : Type ℓ} ⦃ops : Slotted C⦄ where
  -- What a successful `acquire` does to slot `idx`, and that it leaves the others alone.
  pub record Acquired (n : ℕ) (t : Table C) (idx : ℕ) (t' : Table C) : Type ℓ where
    pub valid : IsValid n t'
    pub was_idle : get_elem? t.slot_state idx ≡ some false
    pub now_used : get_elem? t'.slot_state idx ≡ some true
    pub other_states : (j : ℕ) → idx ≢ j → get_elem? t'.slot_state j ≡ get_elem? t.slot_state j
    pub before : C
    pub at_before : get_elem? t.slots idx ≡ some before
    pub at_after : get_elem? t'.slots idx ≡ some (ops.blank ((ops.gen_of before + 1) % 2 ^ 32) idx)
    pub other_slots : (j : ℕ) → idx ≢ j → get_elem? t'.slots j ≡ get_elem? t.slots j

  module _ {n : ℕ} {t : Table C} (v : IsValid n t) where
    acquire_from_stack :
        (idx : ℕ) (c : C)
        → 0 < t.free_slot_top
        → get_elem? t.free_slots (t.free_slot_top - 1) ≡ some idx
        → get_elem? t.slots idx ≡ some c
        → (t' : Table C) × (acquire t ≡ some (some idx, t')) × Acquired n t idx t'
    unfolding acquire
    acquire_from_stack idx c pos at found = (
      t',
      rw (test, at, found) refl,
      record {
        valid = record {
          len_slots = length-set t.slots idx c' ∙ v.len_slots;
          len_state = length-set t.slot_state idx true ∙ v.len_state;
          len_free = v.len_free;
          balance = omega (arith, v.balance, actives-set-true t.slot_state idx idle);
          free_idle = λ i s lt e.
              get_elem?-set_ne t.slot_state idx s true (apart i s lt e)
              ∙ v.free_idle i s (omega arith) e;
          free_distinct =
              λ i j s li lj ei ej. v.free_distinct i j s (omega arith) (omega arith) ei ej;
        };
        was_idle = idle;
        now_used = get_elem?-set_self t.slot_state idx true (get_elem?-lt t.slot_state idx idle);
        other_states = λ j ne. get_elem?-set_ne t.slot_state idx j true ne;
        before = c;
        at_before = found;
        at_after = get_elem?-set_self t.slots idx c' (get_elem?-lt t.slots idx found);
        other_slots = λ j ne. get_elem?-set_ne t.slots idx j c' ne;
      },
    )
      where
        test : (t.free_slot_top == 0) ≡ false
        test = ground arith

        c' : C
        c' = ops.blank ((ops.gen_of c + 1) % 2 ^ 32) idx

        t' : Table C
        t' = record t {
          free_slot_top = t.free_slot_top - 1;
          slots = set t.slots idx c';
          slot_state = set t.slot_state idx true;
          acquired = t.acquired + 1;
        }

        idle : get_elem? t.slot_state idx ≡ some false
        idle = v.free_idle (t.free_slot_top - 1) idx (omega arith) at

        apart : (i s : ℕ) → i < t.free_slot_top - 1 → get_elem? t.free_slots i ≡ some s → idx ≢ s
        apart i s lt e same = absurd (
            omega (
              arith,
              v.free_distinct i (t.free_slot_top - 1) s (omega arith) (omega arith) e
                  (at ∙ ap some same),
            ))

    -- With the stack in order `acquire` accesses no array outside its bounds. It fails exactly if all `n`
    -- slots are in use, and then changes nothing but the count of failures. Otherwise it hands out a
    -- slot that was not in use, marks it as in use, wipes it, moves its generation on by one modulo 2^32,
    -- leaves all other slots alone, and keeps the stack in order.
    pub acquire-Acquired :
        ((actives t.slot_state ≡ n)
          × (acquire t ≡ some (none, record t { exhausted = t.exhausted + 1 })))
        ⊎ ((actives t.slot_state < n)
            × ((idx : ℕ) × (t' : Table C) × (acquire t ≡ some (some idx, t'))
                × Acquired n t idx t'))
    acquire-Acquired = elim (ℕ_discrete t.free_slot_top 0) [
      | yes empty ↦ inl (omega (arith, v.balance), exhausted empty)
      | no some_left ↦ inr (omega (arith, v.balance), pick (omega arith))
    ]
      where
        exhausted :
            t.free_slot_top ≡ 0 → acquire t ≡ some (none, record t { exhausted = t.exhausted + 1 })
        exhausted e = unfold acquire in (ground arith)

        pick :
            0 < t.free_slot_top
            → (idx : ℕ) × (t' : Table C) × (acquire t ≡ some (some idx, t')) × Acquired n t idx t'
        pick pos =
            let (idx, at) =
              get_elem?-some t.free_slots (t.free_slot_top - 1)
                (omega (arith, v.len_free, v.balance)) in
            let idle = v.free_idle (t.free_slot_top - 1) idx (omega arith) at in
            let (c, found) =
              get_elem?-some t.slots idx
                (omega (arith, v.len_slots, v.len_state, get_elem?-lt t.slot_state idx idle)) in
            let (t', run, a) = acquire_from_stack idx c pos at found in (idx, t', run, a)

  -- What `release` does to slot `idx`, and that it leaves the others alone.
  pub record Released (n : ℕ) (t : Table C) (idx : ℕ) (t' : Table C) : Type ℓ where
    pub valid : IsValid n t'
    pub now_idle : get_elem? t'.slot_state idx ≡ some false
    pub other_states : (j : ℕ) → idx ≢ j → get_elem? t'.slot_state j ≡ get_elem? t.slot_state j
    pub same_slots : t'.slots ≡ t.slots
    pub counted : t'.released ≡ t.released + 1

  module _ {n : ℕ} {t : Table C} (v : IsValid n t) (idx : ℕ)
      (used : get_elem? t.slot_state idx ≡ some true) where
    -- A slot in use can be given back: the stack has room for it, no array is left, the stack stays in
    -- order, and no connection is touched, so the slot's generation stays until the next `acquire`.
    pub release-Released : (t' : Table C) × (release t idx ≡ some t') × Released n t idx t'
    release-Released = (
      t',
      ran,
      record {
        valid = record {
          len_slots = v.len_slots;
          len_state = length-set t.slot_state idx false ∙ v.len_state;
          len_free = length-set t.free_slots t.free_slot_top idx ∙ v.len_free;
          balance = omega (arith, v.balance, actives-set-false t.slot_state idx used);
          free_idle = idle;
          free_distinct = distinct;
        };
        now_idle = get_elem?-set_self t.slot_state idx false (get_elem?-lt t.slot_state idx used);
        other_states = λ j ne. get_elem?-set_ne t.slot_state idx j false ne;
        same_slots = refl;
        counted = refl;
      },
    )
      where
        t' : Table C
        t' = record t {
          slot_state = set t.slot_state idx false;
          free_slots = set t.free_slots t.free_slot_top idx;
          free_slot_top = t.free_slot_top + 1;
          released = t.released + 1;
        }

        room : t.free_slot_top < length t.free_slots
        room = omega (arith, v.len_free, v.balance, actives-set-false t.slot_state idx used)

        ran : release t idx ≡ some t'
        ran = unfold release in (ground (arith, room, get_elem?-lt t.slot_state idx used))

        -- Below the old top nothing has changed; the top entry is `idx`.
        entry :
            (i s : ℕ)
            → i < t.free_slot_top + 1
            → get_elem? t'.free_slots i ≡ some s
            → ((i ≡ t.free_slot_top) × (s ≡ idx))
              ⊎ ((i < t.free_slot_top) × (get_elem? t.free_slots i ≡ some s) × (idx ≢ s))
        entry i s lt e = elim (ℕ_discrete t.free_slot_top i) [
          | yes top ↦
              let e' = subst (λ k. get_elem? t'.free_slots k ≡ some s) (sym top) e in
              let self = get_elem?-set_self t.free_slots t.free_slot_top idx room in
              inl (sym top, cc)
          | no ne ↦
              let at = sym (get_elem?-set_ne t.free_slots t.free_slot_top i idx ne) ∙ e in
              let was = v.free_idle i s (omega arith) at in inr (omega arith, at, λ same. cc)
        ]

        idle :
            (i s : ℕ)
            → i < t.free_slot_top + 1
            → get_elem? t'.free_slots i ≡ some s
            → get_elem? t'.slot_state s ≡ some false
        idle i s lt e = elim (entry i s lt e) [
          | inl (_, same) ↦
              rw same
                (get_elem?-set_self t.slot_state idx false (get_elem?-lt t.slot_state idx used))
          | inr (below, at, ne) ↦
              get_elem?-set_ne t.slot_state idx s false ne ∙ v.free_idle i s below at
        ]

        distinct :
            (i j s : ℕ)
            → i < t.free_slot_top + 1
            → j < t.free_slot_top + 1
            → get_elem? t'.free_slots i ≡ some s
            → get_elem? t'.free_slots j ≡ some s
            → i ≡ j
        distinct i j s li lj ei ej = elim (entry i s li ei) [
          | inl (ti, si) ↦ elim (entry j s lj ej) [
            | inl (tj, sj) ↦ omega arith
            | inr (_, _, ne) ↦ absurd (ne (sym si))
          ]
          | inr (bi, ai, ne) ↦ elim (entry j s lj ej) [
            | inl (tj, sj) ↦ absurd (ne (sym sj))
            | inr (bj, aj, _) ↦ v.free_distinct i j s bi bj ai aj
          ]
        ]
