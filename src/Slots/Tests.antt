-- ===== src/Slots/Tests.antt =====
-- A table of two slots that has just been started, over connections that are only a generation.
use g_proxy_pro.Base.{
  ◌⊎◌, ◌≢◌, Bool, ◌+◌, ◌^◌, false, none, arith, ℕ, ◌<◌, ◌≡◌, refl, true, some, [], ◌∷◌, get_elem?,
}
use g_proxy_pro.Slots.{Slotted, Table, init, acquire, release}
use g_proxy_pro.Slots.Inv.{IsValid, actives, Acquired, Released, acquire-Acquired, release-Released}
use g_proxy_pro.Slots.Start.{init-IsValid}
use g_proxy_pro.Slots.Trace.{here, again}
use g_proxy_pro.Slots.Stale.{stale_not_processed}
use g_proxy_pro.Event.Conn
use g_proxy_pro.Event.Udp

instance abbrev only_gen : Slotted ℕ
only_gen = record {
  gen_of = λ c. c;
  blank = λ gen slot. gen;
  with_gen = λ c gen. gen;
  gen_of-blank = λ gen slot. refl;
  gen_of-with_gen = λ c gen. refl;
}

abbrev unset : Table ℕ
unset = record {
  slots = 0 ∷ 9 ∷ [];
  slot_state = true ∷ true ∷ [];
  free_slots = [];
  free_slot_top = 5;
  acquired = 0;
  released = 0;
  exhausted = 0;
}

init_example :
    IsValid 2 (init unset)
    × (actives (init unset).slot_state ≡ 0)
    × ((i : ℕ) (c : ℕ) → get_elem? (init unset).slots i ≡ some c → 0 < c)
init_example = init-IsValid unset

acquire_example :
    ((actives (init unset).slot_state ≡ 2)
      × (acquire (init unset)
          ≡ some (none, record (init unset) { exhausted = (init unset).exhausted + 1 })))
    ⊎ ((actives (init unset).slot_state < 2)
        × ((idx : ℕ) × (t' : Table ℕ) × (acquire (init unset) ≡ some (some idx, t'))
            × Acquired 2 (init unset) idx t'))
acquire_example = acquire-Acquired init_example.0

-- Slot 0 in use, slot 1 idle.
abbrev one_used : Table ℕ
one_used = record {
  slots = 1 ∷ 9 ∷ [];
  slot_state = true ∷ false ∷ [];
  free_slots = 1 ∷ 0 ∷ [];
  free_slot_top = 1;
  acquired = 1;
  released = 0;
  exhausted = 0;
}

one_used-IsValid : IsValid 2 one_used
one_used-IsValid = record {
  len_slots = refl;
  len_state = refl;
  len_free = refl;
  balance = refl;
  free_idle = λ i s lt e. ground arith;
  free_distinct = λ i j s li lj ei ej. omega arith;
}

release_example : (t' : Table ℕ) × (release one_used 0 ≡ some t') × Released 2 one_used 0 t'
release_example = release-Released one_used-IsValid 0 refl

abbrev reused : Table ℕ
reused = record one_used {
  free_slot_top = 0;
  slots = 1 ∷ 10 ∷ [];
  slot_state = true ∷ true ∷ [];
  acquired = 2;
}

hand_out : acquire one_used ≡ some (some 1, reused)
unfolding acquire
hand_out = refl

stale_example :
    let c : ℕ = 9 in
    (now : ℕ) × (get_elem? reused.slots 1 ≡ some now)
    × (0 < 1
        → 1 < 2 ^ 32
        → (magic widx my_widx : ℕ) (state closed registered : Bool)
        → (Conn.check_slot c now magic state widx my_widx closed registered
            ≢ Conn.Disposition.process)
          × (Udp.check_slot c now magic state closed registered ≢ Udp.Disposition.process))
    × (1 ≡ 2 ^ 32 → now ≡ c)
stale_example =
    stale_not_processed 2 1 9 one_used-IsValid refl (omega arith) (again reused here hand_out)
