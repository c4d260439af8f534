-- ===== src/Slots.antt =====
-- The slot tables of app/src/main/cpp/simple-socks5.c: connections stand in a static array that is
-- never freed, and a stack of free indices and a generation per slot say who owns what. The TCP table
-- (`slot_acquire`, `slot_release`, `slots_init`) and the UDP one (`udp_slot_acquire`, ..) are the same
-- code over two connection types. Each function is one step: the table's lock covers the stack and the
-- generation, and the slot is nobody else's while the rest is written.
pub mod Inv
pub mod Trace
pub mod Stale
pub mod Start
mod Tests
use g_proxy_pro.Base.{
  ℕ, zero, suc, ◌+◌, ◌-◌, ◌%◌, ◌^◌, ◌≡◌, Bool, true, false, Option, none, some, List, [], ◌∷◌, map,
  ltb, ◌&&◌, ◌==◌, if◌then◌else◌, ◌>>=◌, length, get_elem?, set, replicate,
}

-- What a table needs of its connections: the generation, a connection with only slot and generation
-- set (`memset` and the assignments after it), and a write of the generation.
pub record Slotted {ℓ} (C : Type ℓ) : Type ℓ where
  pub gen_of : C → ℕ
  pub blank : ℕ → ℕ → C
  pub with_gen : C → ℕ → C
  pub gen_of-blank : (gen slot : ℕ) → gen_of (blank gen slot) ≡ gen
  pub gen_of-with_gen : (c : C) (gen : ℕ) → gen_of (with_gen c gen) ≡ gen

-- `slot_state` is 1 for a slot in use. `free_slots` is an array, in use below `free_slot_top`.
pub record Table {ℓ} (C : Type ℓ) : Type ℓ where
  pub slots : List C
  pub slot_state : List Bool
  pub free_slots : List ℕ
  pub free_slot_top : ℕ
  pub acquired : ℕ
  pub released : ℕ
  pub exhausted : ℕ

-- Indices from `i` on.
abbrev pub count_from : ℕ → ℕ → List ℕ
count_from i zero = []
count_from i (suc n) = i ∷ count_from (suc i) n

module _ {ℓ} {C : Type ℓ} ⦃ops : Slotted C⦄ where
  -- The outer option is an access outside an array, the inner one the result -1. `gen` is a
  -- `uint32_t`.
  unfoldable pub acquire : Table C → Option (Option ℕ × Table C)
  acquire t =
      if t.free_slot_top == 0 then some (none, record t { exhausted = t.exhausted + 1 }) else (do
        idx ← get_elem? t.free_slots (t.free_slot_top - 1)
        c ← get_elem? t.slots idx
        some (
          some idx,
          record t {
            free_slot_top = t.free_slot_top - 1;
            slots = set t.slots idx (ops.blank ((ops.gen_of c + 1) % 2 ^ 32) idx);
            slot_state = set t.slot_state idx true;
            acquired = t.acquired + 1;
          },
        ))

  -- The stack grows by one; a write outside an array is `none`.
  unfoldable pub release : Table C → ℕ → Option (Table C)
  release t idx =
      if ltb idx (length t.slot_state) && ltb t.free_slot_top (length t.free_slots)
      then some (record t {
        slot_state = set t.slot_state idx false;
        free_slots = set t.free_slots t.free_slot_top idx;
        free_slot_top = t.free_slot_top + 1;
        released = t.released + 1;
      })
      else none

  unfoldable first_gen : C → C
  first_gen c = if ops.gen_of c == 0 then ops.with_gen c 1 else c

  unfoldable pub init : Table C → Table C
  unfolding first_gen
  init t = record t {
    slots = map first_gen t.slots;
    slot_state = replicate (length t.slots) false;
    free_slots = count_from 0 (length t.slots);
    free_slot_top = length t.slots;
  }
