-- ===== src/Slots/Start.antt =====
-- The table as `slots_init` leaves it.
use g_proxy_pro.Base.{
  ℕ, zero, suc, ◌+◌, ◌<◌, ◌≡◌, refl, arith, false, some, List, [], ◌∷◌, map, length, get_elem?,
  replicate, length-replicate, ◌==◌, Bool-cases, inl, inr, length,
}
use g_proxy_pro.Slots.{Slotted, Table, count_from, init, first_gen}
use g_proxy_pro.Slots.Inv.{IsValid, actives}

get_elem?-count_from : (i n k s : ℕ) → get_elem? (count_from i n) k ≡ some s → s ≡ i + k
get_elem?-count_from i zero k s e = cc
get_elem?-count_from i (suc n) zero s e = ground arith
get_elem?-count_from i (suc n) (suc k) s e = omega (arith, get_elem?-count_from (suc i) n k s e)

length-count_from : (i n : ℕ) → length (count_from i n) ≡ n
length-count_from i zero = refl
length-count_from i (suc n) = omega (arith, length-count_from (suc i) n)

actives-replicate : (n : ℕ) → actives (replicate n false) ≡ 0
actives-replicate zero = refl
actives-replicate (suc n) = actives-replicate n

get_elem?-replicate {ℓ} :
    {A : Type ℓ} (x : A) (n i : ℕ) → i < n → get_elem? (replicate n x) i ≡ some x
get_elem?-replicate x zero i lt = absurd (omega arith)
get_elem?-replicate x (suc n) zero lt = refl
get_elem?-replicate x (suc n) (suc i) lt = get_elem?-replicate x n i (omega arith)

length-map {ℓ ℓ'} :
    {A : Type ℓ} {B : Type ℓ'} (f : A → B) (xs : List A) → length (map f xs) ≡ length xs
length-map f [] = refl
length-map f (x ∷ xs) = omega (arith, length-map f xs)

get_elem?-map {ℓ ℓ'} :
    {A : Type ℓ} {B : Type ℓ'} (f : A → B) (xs : List A) (i : ℕ) (y : B)
    → get_elem? (map f xs) i ≡ some y
    → (x : A) × (get_elem? xs i ≡ some x) × (y ≡ f x)
get_elem?-map f [] i y e = absurd cc
get_elem?-map f (x ∷ xs) zero y e = (x, refl, cc)
get_elem?-map f (x ∷ xs) (suc i) y e = get_elem?-map f xs i y e

module _ {ℓ} {C : Type ℓ} ⦃ops : Slotted C⦄ where
  first_gen-positive : (c : C) → 0 < ops.gen_of (first_gen c)
  unfolding first_gen
  first_gen-positive c = elim (Bool-cases (ops.gen_of c == 0)) [
    | inl e ↦ rw (e, ops.gen_of-with_gen c 1) (omega arith)
    | inr e ↦ rw e (ground (arith, e))
  ]

  -- After `slots_init` the table is in order with no slot in use, whatever was in it before, and no
  -- slot's generation is 0.
  pub init-IsValid :
      (t : Table C)
      → IsValid (length t.slots) (init t)
        × (actives (init t).slot_state ≡ 0)
        × ((i : ℕ) (c : C) → get_elem? (init t).slots i ≡ some c → 0 < ops.gen_of c)
  unfolding init
  init-IsValid t = (
    record {
      len_slots = length-map first_gen t.slots;
      len_state = length-replicate _ false;
      len_free = length-count_from 0 _;
      balance = omega (arith, actives-replicate (length t.slots));
      free_idle =
          λ i s lt e. get_elem?-replicate false _ s (omega (arith, get_elem?-count_from 0 _ i s e));
      free_distinct = λ i j s li lj ei ej.
          omega (arith, get_elem?-count_from 0 _ i s ei, get_elem?-count_from 0 _ j s ej);
    },
    actives-replicate (length t.slots),
    λ i c at. let (b, _, e) = get_elem?-map first_gen t.slots i c at in rw e (first_gen-positive b),
  )
